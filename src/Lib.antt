-- ===== src/Lib.antt =====
-- MATP, a trading platform of several services, in a model of the parts that decide: which orders
-- are sent, where stops lie, which symbol and which key are used, and what a replay books.
--
-- How the parts interact. social-listener reads posts of a channel: its state machine turns a post and
-- the legs that the channel is recorded as holding into a decision, and its emitter sends the decision's
-- webhook steps to order-listener. signal-engine runs brackets of exits over price bars. order-listener
-- takes a webhook in: it authenticates it, resolves the symbol, sizes the order, prices its bracket and
-- guarantees a stop. It then processes the order against the ledger of the strategy's positions: fills,
-- closes, stops that the fill has overtaken, booked pnl, and the drawdown check. ai-signal-generator wakes
-- at candle boundaries, runs one cycle for each strategy at a time and takes its LLM keys from a pool.
-- strategy-tester replays a strategy over candles. order-executor opens and closes trades of two
-- legs at two venues.
--
-- Files, and the code they model (paths from the repository's root):
--   Base              shared names, lists, texts, numbers; Base/Slot is the slot of a key in flight, the
--                     code of social-listener/app/post_lock.py and ai-signal-generator/app/cycle_lock.py
--   SocialListener    social-listener/app
--     Legs            legs.py, class Legs
--     Post            the record of the extractor, and the readings of it in statemachine.py
--     Levels          statemachine.py: resolve_leg, evaluate_stop, evaluate_take_profit
--     Plan            statemachine.py: _plan_close, and the OPEN and FLIP branches of evaluate
--     Manage          statemachine.py: _evaluate_add, _evaluate_trim
--     Decision, Gate  statemachine.py: the result of evaluate, and evaluate
--     Emitter         emitter.py: the webhook steps and emit
--     PostLock        post_lock.py
--   SignalEngine      Bracket is signal-engine/app/exits.py, class BracketState
--   OrderListener     order-listener/app: StopRevalidation, SymbolValidator and SymbolFactory are
--                     stop_revalidation.py, symbol_validator.py and symbol_factory.py; what follows is
--                     webhook_handler.py, with models.py for the payload and config.py for the margin rates
--     GuaranteedStop  compute_guaranteed_sl, _infer_price_decimals, fallback_mmr
--     Webhook         receive_webhook: Sizing has the reference price, the clamp, the bracket and the
--                     reward/risk floor, and Intake the handler itself
--     Ledger          the tables: Filling is _apply_position_fill and _create_strategy_position, Closing
--                     close_strategy_position, Resize _resize_stops_after_partial_close, Booking and Drawdown
--                     _book_realized_pnl, _disable_if_drawdown_breached and _flatten_strategy_positions,
--                     and Sync sync_position_pnl
--     Process         _process_order: Flat has a flat and the close signals, Guards the conflicts and the
--                     smallest order, Opening the call of the executor and what follows a fill
--     Manual          close_position_by_id and adjust_stops_for_strategy
--     Reconciler      reconciler.py: the verdict of reconcile_once on a row, and classify_external_close
--   OrderExecutor     order-executor/app/spread_trade.py: execute_plan, close_spread and the abort band
--   SignalGenerator   ai-signal-generator/app: KeyPool is key_pool.py with `load` in KeyPool/Reload,
--                     CycleLock cycle_lock.py, Scheduling scheduling.py, Gating graph/gating.py
--   StrategyTester    strategy-tester/app/engine: in backtest_engine.py, Positions has the simulated position
--                     and its fills, Engine the candle loop; Guard is engine/node_guard_sim.py
-- The module below each of these names a group of its properties, and the modules
-- whose names end in Examples hold the tests.
--
-- State and operations. A method that changes an object is a function from its state to the next one, and
-- what it awaits is an argument: the answers of order-listener, the decryption of a key, the graph's answer
-- on each candle, the clock. An exception that a caller can see is the result `none` or a constructor.
-- Callers that interleave at a lock are a step relation on the set of keys and the callers' places. A close
-- reads the ledger, asks the exchange, and writes to the ledger that it then finds: Ledger/Closing has the plan
-- and the commit apart, so that commits of several closes can be put in any order. The exchange is a record of
-- functions from the ledger and the call to an answer. The abstract view of the ledger is the size of each open
-- leg (Ledger/Moves); its steps (Ledger/Refines) each have a cause, a fill or the request of a close, which fixes
-- what the step may do, and Ledger/Runs sets the causes of a run against the calls that were made.
--
-- Numbers. Floats and Decimals are the interface Base/Num: its operations, and laws of order and
-- monotonicity that a theorem names where it uses them; rounding is an operation of the interface. Base/Fixed
-- is an instance that meets the laws, with which the examples compute. Where the code mixes the two kinds, in the
-- chase test of a post that was loaded from the database, the post says which kind its price is. Values that are not numbers (NaN) are
-- not instances of the laws. Times are microseconds since the epoch, and whole seconds of the monotonic
-- clock in the key pool. Texts are lists of ASCII codes.
--
-- Loops run over lists that are given. One recursion has fuel: a booked loss may flatten the strategy, whose
-- closes book in turn; each goes deeper only after it has closed a leg, so the number of open legs and one more
-- is enough, and the handlers start with that. Logging, notifications, SQL and HTTP are left out, and so are the
-- services' entry points, the exchange adapters, the collectors and prompts, and the dashboards; order-listener's
-- reconciler beyond its verdict on a row, its endpoints for resting orders, and the guard of the live signal graph, are not modelled.
pub mod Base
pub mod SocialListener
pub mod SignalEngine
pub mod OrderListener
pub mod SignalGenerator
pub mod StrategyTester
pub mod OrderExecutor
