-- ===== src/SignalGenerator/Scheduling/Wake.antt =====
-- When the scheduler wakes.
use matp.Base.{ℕ, ◌+◌, ◌*◌, ◌/◌, ◌≤◌, ◌<◌, ◌≡◌, ◌⊎◌, inl, inr, arith, Bool-cases, ltb, suc}
use matp.SignalGenerator.Scheduling.{wake_at, until_aligned_wake}
use native.Mathlib.Nat.{div-add-mod', mod-lt}

-- Division with remainder at a period above zero.
now_parts : (tf now : ℕ) → 0 < tf → (now / tf * tf ≤ now) × (now < now / tf * tf + tf)
now_parts tf now h =
    (omega (arith, div-add-mod' now tf), omega (arith, div-add-mod' now tf, mod-lt now h))

mul-le : (a b t : ℕ) → a ≤ b → a * t ≤ b * t
mul-le a b t h = grind arith

mul-suc-le : (a b t : ℕ) → suc a ≤ b → a * t + t ≤ b * t
mul-suc-le a b t h = grind arith

lt_of_mul : (a b t : ℕ) → a ≤ b → a * t < b * t → suc a ≤ b
lt_of_mul a b t h k = grind arith

-- The wake point is not before now, and is the buffer point of the current candle or of the next.
pub wake_at-buffer_point :
    (tf now buffer : ℕ)
    → 0 < tf
    → (now ≤ wake_at tf now buffer)
      × ((wake_at tf now buffer ≡ now / tf * tf + buffer)
          ⊎ (wake_at tf now buffer ≡ now / tf * tf + buffer + tf))
unfolding wake_at
wake_at-buffer_point tf now buffer h = ground (arith, now_parts tf now h)

-- It is the first: no buffer point from the current candle's on lies between now and it.
pub wake_at-le :
    (tf now buffer j : ℕ)
    → now / tf ≤ j
    → now ≤ j * tf + buffer
    → wake_at tf now buffer ≤ j * tf + buffer
unfolding wake_at
wake_at-le tf now buffer j current ahead = elim (Bool-cases (ltb (now / tf * tf + buffer) now)) [
  | inl passed ↦
      ground (arith, mul-suc-le (now / tf) j tf (lt_of_mul (now / tf) j tf current (ground arith)))
  | inr here ↦ ground (arith, mul-le (now / tf) j tf current)
]

-- The sleep is at least the least one, and ends at the wake point, or after it where the least
-- sleep is longer.
pub until_aligned_wake-bounds :
    (tf now buffer min_sleep : ℕ)
    → 0 < tf
    → (min_sleep ≤ until_aligned_wake tf now buffer min_sleep)
      × (wake_at tf now buffer ≤ now + until_aligned_wake tf now buffer min_sleep)
      × ((until_aligned_wake tf now buffer min_sleep ≡ min_sleep)
          ⊎ (now + until_aligned_wake tf now buffer min_sleep ≡ wake_at tf now buffer))
unfolding until_aligned_wake
until_aligned_wake-bounds tf now buffer min_sleep h =
    ground (arith, wake_at-buffer_point tf now buffer h)
