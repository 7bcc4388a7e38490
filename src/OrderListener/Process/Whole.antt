-- ===== src/OrderListener/Process/Whole.antt =====
-- The handler comes to an end, and its moves are those of the abstract view.
use matp.Base.Num.{Num}
use matp.Base.Result.{Result}
use matp.OrderListener.Ledger.{Ledger}
