-- ===== src/Prelude/Float64/Rounding.antt =====
-- How far a rounded number is from the number, and the halvings that rounding takes.
use Prim.Native.Nat.{ℕ, zero, suc, ◌+◌, ◌*◌, ◌/◌, ◌%◌, ◌^◌, ◌<◌, ◌≤◌}
use mathlib.Core.Path.{◌≡◌, refl, sym, ap, subst, ◌∙◌}
use mathlib.Core.Logic.{◌⊎◌, inl, inr}
use native.Mathlib.Omega.{arith}
use native.Mathlib.Decide.{dec_lt}
use native.Mathlib.Nat.{div-div-eq-div-mul, div-add-mod', mod-lt, pow-suc, pow-succ'}
use connectivity_exporter.Prelude.Float64.{
  exponent, exponent-small, round_half_even, round, of_uint64,
}

exponent-large : (f n : ℕ) → 2 ^ 53 ≤ n → exponent (suc f) n ≡ suc (exponent f (n / 2))
unfolding exponent
exponent-large f n h = ground arith

half-lt : (f n : ℕ) → n < 2 ^ 53 * 2 ^ suc f → n / 2 < 2 ^ 53 * 2 ^ f
half-lt f n h = omega (arith, pow-suc 2 f)

halved :
    (f n : ℕ)
    → exponent (suc f) n ≡ suc (exponent f (n / 2))
    → n / 2 / 2 ^ exponent f (n / 2) < 2 ^ 53
    → n / 2 ^ exponent (suc f) n < 2 ^ 53
halved f n e h =
    subst (λ k. k < 2 ^ 53)
      (div-div-eq-div-mul n 2 (2 ^ exponent f (n / 2))
        ∙ ap (λ k. n / k) (sym (pow-succ' 2 (exponent f (n / 2))))
        ∙ ap (λ k. n / 2 ^ k) (sym e))
      h

-- `f` halvings are enough for a number of 53 + f bits.
exponent-enough : (f n : ℕ) → n < 2 ^ 53 * 2 ^ f → n / 2 ^ exponent f n < 2 ^ 53
unfolding exponent
exponent-enough zero n h = omega arith
exponent-enough (suc f) n h = elim (dec_lt n (2 ^ 53)) [
  | yes lt ↦ subst (λ e. n / 2 ^ e < 2 ^ 53) (sym (exponent-small (suc f) n lt)) (omega arith)
  | no ge ↦
      halved f n (exponent-large f n (omega arith)) (exponent-enough f (n / 2) (half-lt f n h))
]

-- The quotient is rounded down or up, to the nearer side.
round_half_even-cases :
    (n u : ℕ)
    → ((round_half_even n u ≡ n / u) × (2 * (n % u) ≤ u))
      ⊎ ((round_half_even n u ≡ n / u + 1) × (u ≤ 2 * (n % u)))
unfolding round_half_even
round_half_even-cases n u = ground arith

-- Within half a unit.
pub record Near (n u r : ℕ) : Type 0 where
  pub above : 2 * n ≤ 2 * (r * u) + u
  pub below : 2 * (r * u) ≤ 2 * n + u
  pub quotient : r ≤ n / u + 1

round_half_even-Near : (n u : ℕ) → 0 < u → Near n u (round_half_even n u)
round_half_even-Near n u pos = elim (round_half_even-cases n u) [
  | inl a ↦
      let split : n / u * u + n % u ≡ n = div-add-mod' n u in
      rw a.0 (record {
        above = omega (arith, split, a.1);
        below = omega (arith, split);
        quotient = omega arith;
      })
  | inr a ↦
      let split : n / u * u + n % u ≡ n = div-add-mod' n u in
      let next : (n / u + 1) * u ≡ n / u * u + u = omega arith in
      rw a.0 (record {
        above = omega (arith, split, next, mod-lt n pos);
        below = omega (arith, split, next, a.1);
        quotient = omega arith;
      })
]

below_fuel : (n : ℕ) → n < 2 ^ 64 → n < 2 ^ 53 * 2 ^ 1024
below_fuel n h = omega arith

two_pow-pos : (e : ℕ) → 0 < 2 ^ e
two_pow-pos zero = omega arith
two_pow-pos (suc e) = omega (arith, pow-suc 2 e, two_pow-pos e)

-- A uint64 becomes a multiple of a power of two of at most 53 bits, or 2 ^ 53 of them, within half
-- of that power: the halvings of `round` are enough.
pub of_uint64-Near :
    (n : ℕ) → n < 2 ^ 64 → (e r : ℕ) × (of_uint64 n ≡ r * 2 ^ e) × (r ≤ 2 ^ 53) × Near n (2 ^ e) r
unfolding of_uint64 round
of_uint64-Near n h =
    let e = exponent 1024 n in
    let near = round_half_even-Near n (2 ^ e) (two_pow-pos e) in
    let bits : n / 2 ^ e < 2 ^ 53 = exponent-enough 1024 n (below_fuel n h) in
    (e, round_half_even n (2 ^ e), refl, omega (arith, near.quotient, bits), near)
