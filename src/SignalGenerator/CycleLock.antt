-- ===== src/SignalGenerator/CycleLock.antt =====
-- ai-signal-generator/app/cycle_lock.py: `cycle_slot`, by strategy. The same code with another key is
-- `post_slot` of social-listener (`SocialListener/PostLock.antt`); both are slots of `Base/Slot.antt`.
use matp.Base.{Bool, List}
use matp.Base.Text.{Text}
use matp.Base.Eq.{text_keys}
use matp.Base.Slot.{enter, leave}

-- the test and the `add` of `cycle_slot`: whether the caller owns the slot, and the set after it
unfoldable pub cycle_enter : Text → List Text → Bool × List Text
unfolding enter
cycle_enter strategy_id in_flight = enter strategy_id in_flight

-- its `finally` clause
unfoldable pub cycle_leave : Text → List Text → List Text
unfolding leave
cycle_leave strategy_id in_flight = leave strategy_id in_flight
