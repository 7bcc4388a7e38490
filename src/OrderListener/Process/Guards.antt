-- ===== src/OrderListener/Process/Guards.antt =====
-- `_process_order`: the same-symbol guard and the minimum order value.
use matp.Base.{Bool, true, false, ◌&&◌, ◌||◌, Option, none, some, List, [], ◌∷◌, any, if◌then◌else◌}
use matp.Base.Num.{Num, nought, one}
use matp.OrderListener.GuaranteedStop.{PositionSide}
use matp.OrderListener.Webhook.{Accepted}
use matp.OrderListener.Webhook.Sizing.{webhook_price}
use matp.OrderListener.Ledger.{same_side, opposite}
use matp.OrderListener.Process.{OrderStatus, opp_pos_conflict, same_symbol_conflict, Desk}

-- `_conflict_reason`, for what the other strategies of the account hold
unfoldable pub conflict_reason :
    Bool → Option (List PositionSide) → PositionSide → Option OrderStatus
conflict_reason hedge none ours = none
conflict_reason hedge (some []) ours = none
conflict_reason true (some (s ∷ ss)) ours =
    if any (same_side ours) (s ∷ ss) then some same_symbol_conflict else none
conflict_reason false (some (s ∷ ss)) ours =
    if any (same_side (opposite ours)) (s ∷ ss)
    then some opp_pos_conflict
    else some same_symbol_conflict

module _ {F : Type 0} ⦃num : Num F⦄ where
  open num use {mul, lt}

  -- `_size_rejected`
  unfoldable pub size_rejected : Desk F → Accepted F → Bool
  unfolding webhook_price
  size_rejected desk a =
      let price = webhook_price a.payload in
      (lt nought desk.min_base_size && lt a.payload.size desk.min_base_size)
      || (lt nought price && lt (mul a.payload.size price) one)
