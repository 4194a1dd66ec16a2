-- ===== src/Prelude/Float64.antt =====
-- IEEE 754 binary64 on the values that the counters take: natural numbers. A sum is rounded to 53
-- significant bits, half to even. No value here passes 2 ^ 1024, so overflow to infinity is left out.
pub mod Rounding
use Prim.Native.Nat.{ℕ, zero, suc, ◌+◌, ◌*◌, ◌/◌, ◌%◌, ◌^◌, ◌<◌}
use mathlib.Core.Path.{◌≡◌, refl}
use native.Mathlib.Omega.{arith}
use connectivity_exporter.Prelude.Tests.{ltb, ◌==◌, if◌then◌else◌}

-- The least exponent at which `n` has at most 53 significant bits; fuel for 1,024 halvings.
exponent : ℕ → ℕ → ℕ
exponent zero n = 0
exponent (suc f) n = let rest = exponent f (n / 2) in if ltb n (2 ^ 53) then 0 else suc rest

-- The quotient by 2 ^ e, rounded half to even.
round_half_even : ℕ → ℕ → ℕ
round_half_even n unit =
    let q = n / unit in
    let twice = 2 * (n % unit) in
    if ltb twice unit then q else if ltb unit twice then q + 1 else if q % 2 == 0 then q else q + 1

unfoldable pub round : ℕ → ℕ
unfolding exponent round_half_even
round n = let unit = 2 ^ exponent 1024 n in round_half_even n unit * unit

-- `float64(n)` of a uint64, and `a + b`.
unfoldable pub of_uint64 : ℕ → ℕ
of_uint64 n = round n

infixl 65 ◌+f◌
unfoldable pub ◌+f◌ : ℕ → ℕ → ℕ
a +f b = round (a + b)

exponent-small : (f n : ℕ) → n < 2 ^ 53 → exponent f n ≡ 0
unfolding exponent
exponent-small zero n h = refl
exponent-small (suc f) n h = ground arith

round_half_even-one : (n : ℕ) → round_half_even n 1 ≡ n
unfolding round_half_even
round_half_even-one n = ground arith

-- Natural numbers below 2 ^ 53 are represented exactly.
pub round_exact : (n : ℕ) → n < 2 ^ 53 → round n ≡ n
unfolding round
round_exact n h = rw (exponent-small 1024 n h) (omega (arith, round_half_even-one n))

pub +f_exact : (a b : ℕ) → a + b < 2 ^ 53 → a +f b ≡ a + b
unfolding ◌+f◌
+f_exact a b h = round_exact (a + b) h

pub of_uint64_exact : (n : ℕ) → n < 2 ^ 53 → of_uint64 n ≡ n
unfolding of_uint64
of_uint64_exact n h = round_exact n h

-- At 2 ^ 53 adding one is lost.
round_saturates : 9007199254740992 +f 1 ≡ 9007199254740992
unfolding ◌+f◌ round
round_saturates = refl
