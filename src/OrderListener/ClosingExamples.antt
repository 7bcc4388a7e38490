-- ===== src/OrderListener/ClosingExamples.antt =====
-- Closes and syncs of the long of `LedgerExamples`, one after the other and interleaved.
use matp.Base.{
  true, false, not, ◌≡◌, refl, none, some, Option, List, [], ◌∷◌, ◌&&◌, ◌||◌, arith, is_some,
  if◌then◌else◌,
}
use matp.Base.Text.{codes}
use matp.Base.Int.{ℤ, pos, negsuc, ◌-ℤ◌, ◌+ℤ◌, eqb_ℤ}
use matp.Base.Fixed.{Fixed, fixed_num, Fixed-IsExact, decimal}
use matp.OrderListener.GuaranteedStop.{long}
use matp.OrderListener.Ledger.{Ledger}
use matp.OrderListener.Ledger.Resize.{
  sl, Trigger, Resting, ModifyAnswer, confirmed, read_triggers, stops_to_place, resize_stops,
}
use matp.OrderListener.Ledger.Booking.{book_pnl}
use matp.OrderListener.Ledger.Balance.{realized, booked, overwritten, commit_close-drift}
use matp.OrderListener.Ledger.Moves.{leg_size}
use matp.OrderListener.Ledger.Sync.{sync_position_pnl, refresh, rolled_up, newly, corrected}
use matp.OrderListener.Ledger.Sync.Balanced.{
  sync_position_pnl-balanced, sync_position_pnl-idempotent,
}
use matp.OrderListener.Ledger.Resize.Flagged.{known, known_sl, known_tp, resize_stops-flags}
use matp.OrderListener.Ledger.Closing.Race.{commit_close-race}
use matp.OrderListener.Ledger.Closing.{filled, resize_after, Plan, commit_close, race_condition}
use matp.OrderListener.LedgerExamples.{
  u, leg, entry, calm, ledger, exchange, close_all, ledger-IsLedger,
}

-- what a full close of the leg has planned
abbrev full_plan : Plan Fixed
full_plan = record {
  pos = leg;
  is_full = true;
  size = u 2;
  fill_price = some (u 110);
  pnl = some (u 20);
  fee = some (u 1);
  net_pnl = some (u 18);
  pre_stops = none;
}

abbrev full_close : Ledger Fixed
full_close = (commit_close exchange close_all full_plan ledger).1

abbrev booked_close : Ledger Fixed
booked_close = record full_close { book = book_pnl (u 18) full_close.book }

commit_close-drift_example :
    fixed_num.add booked_close.book.pnl_total (realized ledger.positions)
    ≡ fixed_num.add
        (fixed_num.add ledger.book.pnl_total (realized booked_close.positions))
        (overwritten full_plan ledger)
unfolding commit_close
commit_close-drift_example =
    commit_close-drift Fixed-IsExact exchange close_all full_plan ledger (filled true) booked_close
      ledger-IsLedger refl

commit_close-race_example :
    let l' = (commit_close exchange close_all full_plan ledger).1 in
    let r = commit_close exchange close_all full_plan l' in
    (r.0 ≡ race_condition) × (r.1.positions ≡ l'.positions) × (r.1.book ≡ l'.book)
commit_close-race_example =
    commit_close-race exchange close_all close_all full_plan full_plan ledger refl refl

-- the leg is half closed, with a pnl of 5 and a fee of 1, and its entry had a fee of 1
abbrev halved : Ledger Fixed
halved = record ledger {
  positions = record leg { size = u 1 } ∷ [];
  orders =
      record entry {
        id = 1;
        size = u 1;
        pnl = some (u 5);
        closes_position = some 0;
        sl_price = none;
      }
      ∷ entry
      ∷ [];
  next_order = 2;
}

abbrev synced : Ledger Fixed
synced = record halved {
  positions = record leg { size = u 1; pnl_realized = some (u 3) } ∷ [];
  book = record calm {
    pnl_today = u 3;
    pnl_total = u 3;
    capital_allocation = u 103;
    allocation_peak = some (u 103);
  };
}

synced-answer : sync_position_pnl (λ l. some l) halved ≡ some synced
unfolding sync_position_pnl refresh rolled_up newly corrected book_pnl ◌+ℤ◌ ◌-ℤ◌ decimal
synced-answer = refl

sync_position_pnl-balanced_example :
    fixed_num.add synced.book.pnl_total (realized halved.positions)
    ≡ fixed_num.add halved.book.pnl_total (realized synced.positions)
sync_position_pnl-balanced_example =
    sync_position_pnl-balanced Fixed-IsExact halved synced synced-answer

eqb_ℤ-refl : (a : ℤ) → eqb_ℤ a a ≡ true
eqb_ℤ-refl a = ground arith

sync_position_pnl-idempotent_example : sync_position_pnl (λ l. some l) synced ≡ some synced
sync_position_pnl-idempotent_example =
    sync_position_pnl-idempotent halved synced eqb_ℤ-refl synced-answer

-- a stop rests at 98, and the exchange does not confirm it
abbrev silent : Resting Fixed → ModifyAnswer
silent r = record { sl_ok = none; tp_ok = some true }

abbrev resting : Option (List (Trigger Fixed))
resting = some (record { kind = sl; trigger_px = some (u 98) } ∷ [])

resize_stops-flags_example :
    let sl = known_sl resting 0 (entry ∷ []) in
    let tp = known_tp resting 0 (entry ∷ []) in
    resize_stops resting 0 silent (entry ∷ []) ≡ (
      if is_some sl || is_some tp
      then (
        some (known resting 0 (entry ∷ [])),
        is_some sl && not (confirmed (silent (known resting 0 (entry ∷ []))).sl_ok),
      )
      else (none, not (is_some resting)))
resize_stops-flags_example = resize_stops-flags resting 0 silent (entry ∷ [])

-- two closes of 1.5 that both planned from the leg of 2 leave a size of -1
abbrev part_plan : Plan Fixed
part_plan = record full_plan {
  is_full = false;
  size = pos 1500000;
  net_pnl = none;
  pre_stops = some [];
}

commit_close-interleaved :
    leg_size
      (commit_close exchange close_all part_plan
        (commit_close exchange close_all part_plan ledger).1).1
      (codes "BTC-USDT")
      long
    ≡ some (negsuc 999999)
unfolding commit_close leg_size resize_after resize_stops stops_to_place read_triggers ◌-ℤ◌
commit_close-interleaved = refl

-- The other half is closed with a pnl of 10 and a fee of 1, and synced again: the position has made 12, and 15 are
-- booked.
abbrev closing_plan : Plan Fixed
closing_plan = record full_plan {
  size = u 1;
  pnl = some (u 10);
  net_pnl = some (u 8);
  pos = record leg { size = u 1 };
}

abbrev totals : Option (Ledger Fixed) → Option (Fixed × Fixed)
totals none = none
totals (some l) = some (l.book.pnl_total, realized l.positions)

commit_close-after_sync :
    totals (
      sync_position_pnl
        (λ l. some l)
        (booked closing_plan (commit_close exchange close_all closing_plan synced)))
    ≡ some (u 15, u 12)
unfolding commit_close sync_position_pnl refresh rolled_up newly corrected book_pnl ◌+ℤ◌ ◌-ℤ◌
    decimal
commit_close-after_sync = refl
