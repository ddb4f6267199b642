-- ===== src/Prelude/Words.antt =====
-- Go's int64: two's complement, wrapping.
use dayz_behaviour.Prelude.Tests.{ltb, ◌==◌, if◌then◌else◌}
use mathlib.Core.Bool.{Bool, true, false, not}
use dayz_behaviour.Prelude.Int.{ℤ, pos, negsuc, ◌+ℤ◌, ◌-ℤ◌}
use Prim.Native.Nat.{ℕ, ◌+◌, ◌-◌, ◌/◌, ◌%◌, ◌^◌, ◌<◌, ◌≤◌}
use mathlib.Core.Path.{◌≡◌, refl}
use native.Mathlib.Omega.{arith}

-- the integer whose 64-bit pattern is `n`
signed64 : ℕ → ℤ
signed64 n = if ltb n (2 ^ 63) then pos n else negsuc (2 ^ 64 - 1 - n)

unfoldable pub wrap64 : ℤ → ℤ
unfolding signed64
wrap64 (pos n) = signed64 (n % 2 ^ 64)
wrap64 (negsuc n) = signed64 (2 ^ 64 - 1 - n % 2 ^ 64)

unfoldable pub add64 : ℤ → ℤ → ℤ
add64 a b = wrap64 (a +ℤ b)

unfoldable pub sub64 : ℤ → ℤ → ℤ
sub64 a b = wrap64 (a -ℤ b)

pub wrap64-pos : (n : ℕ) → n < 2 ^ 63 → wrap64 (pos n) ≡ pos n
unfolding wrap64
wrap64-pos n h = ground arith

pub wrap64-negsuc : (n : ℕ) → n < 2 ^ 63 → wrap64 (negsuc n) ≡ negsuc n
unfolding wrap64
wrap64-negsuc n h = ground arith

pub add64-pos : (a b : ℕ) → a + b < 2 ^ 63 → add64 (pos a) (pos b) ≡ pos (a + b)
unfolding add64 wrap64 ◌+ℤ◌
add64-pos a b h = ground arith

pub sub64-pos : (a b : ℕ) → a < 2 ^ 63 → b ≤ a → sub64 (pos a) (pos b) ≡ pos (a - b)
unfolding sub64 wrap64 ◌-ℤ◌
sub64-pos a b h k = ground arith

abbrev is_negative : ℤ → Bool
is_negative (pos n) = false
is_negative (negsuc n) = true

abbrev magnitude : ℤ → ℕ
magnitude (pos n) = n
magnitude (negsuc n) = n + 1

abbrev signed : Bool → ℕ → ℤ
signed negative n = if negative then (if n == 0 then pos 0 else negsuc (n - 1)) else pos n

abbrev differs : Bool → Bool → Bool
differs a b = if a then not b else b

-- the quotient of two int64, which Go cuts towards zero, by a divisor that is neither 0 nor -1
unfoldable pub quot64 : ℤ → ℤ → ℤ
quot64 a b = signed (differs (is_negative a) (is_negative b)) (magnitude a / magnitude b)

quot64_cuts : quot64 (negsuc 6) (pos 2) ≡ negsuc 2
unfolding quot64
quot64_cuts = refl
