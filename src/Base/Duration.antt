-- ===== src/Base/Duration.antt =====
-- Go's `time.Duration`: a signed integer of 64 bits that counts nanoseconds and wraps around.
use Prim.Native.Nat.{ℕ, ◌+◌, ◌-◌, ◌*◌, ◌%◌, ◌<◌}
use mathlib.Core.Path.{◌≡◌}
use native.Mathlib.Omega.{arith}
use edge_pilot.Base.Tests.{ltb, if◌then◌else◌}
use edge_pilot.Base.Int.{ℤ, pos, negsuc, pos_part, neg_part, ◌+ℤ◌}

-- 2 ^ 64 and 2 ^ 63.
abbrev pub word : ℕ
word = 18446744073709551616

abbrev pub half_word : ℕ
half_word = 9223372036854775808

-- The value of a signed integer of 64 bits after an operation that has given `n`.
unfoldable pub wrap_int64 : ℤ → ℤ
wrap_int64 (pos n) = let r = n % word in if ltb r half_word then pos r else negsuc (word - r - 1)
wrap_int64 (negsuc n) = let r = n % word in if ltb r half_word then negsuc r else pos (word - r - 1)

-- `time.Duration(n) * time.Second`.
unfoldable pub seconds : ℤ → ℤ
unfolding wrap_int64
seconds (pos n) = wrap_int64 (pos (n * 1_000_000_000))
seconds (negsuc n) = wrap_int64 (negsuc ((n + 1) * 1_000_000_000 - 1))

-- The sum of two durations.
unfoldable pub plus : ℤ → ℤ → ℤ
unfolding wrap_int64
plus a b = wrap_int64 (a +ℤ b)

-- `t.Add(d)` for a time that is counted from 1970 on.
unfoldable pub later_by : ℕ → ℤ → ℕ
later_by t d = t + pos_part d - neg_part d

pub +ℤ-pos : (a c : ℕ) → pos a +ℤ pos c ≡ pos (a + c)
unfolding ◌+ℤ◌
+ℤ-pos a c = ground arith

pub wrap_int64-small : (n : ℕ) → n < half_word → wrap_int64 (pos n) ≡ pos n
unfolding wrap_int64
wrap_int64-small n h = ground arith

-- A duration of so many seconds is what it says up to 9223372036 of them.
pub seconds-small : (n : ℕ) → n < 9223372037 → seconds (pos n) ≡ pos (n * 1_000_000_000)
unfolding seconds
seconds-small n h = wrap_int64-small (n * 1_000_000_000) (omega arith)

pub plus-small : (a b : ℕ) → a + b < half_word → plus (pos a) (pos b) ≡ pos (a + b)
unfolding plus
plus-small a b h = rw (+ℤ-pos a b) (wrap_int64-small (a + b) h)
