-- ===== src/SocialListener/PostLock.antt =====
-- social-listener/app/post_lock.py: `post_slot`, by post, as a slot of `Base/Slot.antt`.
use matp.Base.{ℕ, Bool, List}
use matp.Base.Eq.{nat_eq}
use matp.Base.Slot.{enter, leave}

-- the test and the `add` of `post_slot`: whether the caller owns the post, and the set after it
unfoldable pub post_enter : ℕ → List ℕ → Bool × List ℕ
unfolding enter
post_enter key_id in_flight = enter key_id in_flight

-- its `finally` clause
unfoldable pub post_leave : ℕ → List ℕ → List ℕ
unfolding leave
post_leave key_id in_flight = leave key_id in_flight
