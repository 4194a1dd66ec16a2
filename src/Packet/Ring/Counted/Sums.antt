-- ===== src/Packet/Ring/Counted/Sums.antt =====
-- Sums over the ring.
use connectivity_exporter.Prelude.{
  ℕ, zero, suc, ◌+◌, ◌*◌, ◌<◌, ◌≤◌, ◌≡◌, ◌≢◌, refl, subst, ap, arith, ℕ_discrete,
}
use connectivity_exporter.Packet.Ring.Counted.{sum_below}

pub sum_below-first : (n : ℕ) (f : ℕ → ℕ) → sum_below (suc n) f ≡ f 0 + sum_below n (λ i. f (i + 1))
unfolding sum_below
sum_below-first zero f = omega arith
sum_below-first (suc n) f =
    let e : n + 1 ≡ suc n = omega arith in omega (arith, sum_below-first n f, ap f e)

pub sum_below-same :
    (n : ℕ) (f g : ℕ → ℕ) → ((i : ℕ) → i < n → f i ≡ g i) → sum_below n f ≡ sum_below n g
unfolding sum_below
sum_below-same zero f g same = refl
sum_below-same (suc n) f g same =
    omega (arith, sum_below-same n f g (λ i lt. same i (omega arith)), same n (omega arith))

pub sum_below-last : (n : ℕ) (f : ℕ → ℕ) → sum_below (suc n) f ≡ sum_below n f + f n
unfolding sum_below
sum_below-last n f = refl

-- A sum moved by one place, with its first term gone and a new last one.
pub sum_below-moved :
    (n : ℕ) (f g : ℕ → ℕ)
    → ((i : ℕ) → i < n → g i ≡ f (i + 1))
    → sum_below (suc n) g + f 0 ≡ sum_below (suc n) f + g n
sum_below-moved n f g moved =
    omega
      (arith, sum_below-first n f, sum_below-last n g, sum_below-same n g (λ i. f (i + 1)) moved)

-- A sum with one new term.
pub sum_below-but :
    (n p : ℕ) (f g : ℕ → ℕ)
    → p < n
    → ((i : ℕ) → i < n → i ≢ p → g i ≡ f i)
    → sum_below n g + f p ≡ sum_below n f + g p
sum_below-but zero p f g lt same = absurd (omega arith)
sum_below-but (suc n) p f g lt same = elim (ℕ_discrete n p) [
  | yes e ↦
      subst (λ q. sum_below (suc n) g + f q ≡ sum_below (suc n) f + g q) e
        (omega (
          arith,
          sum_below-last n f,
          sum_below-last n g,
          sum_below-same n g f (λ i before. same i (omega arith) (λ is_p. omega (arith, is_p, e))),
        ))
  | no ne ↦ omega (
    arith,
    sum_below-last n f,
    sum_below-last n g,
    same n (omega arith) ne,
    sum_below-but n p f g (between ne lt) (λ i before. same i (omega arith)),
  )
]
  where
    between : {n p : ℕ} → n ≢ p → p < suc n → p < n
    between ne lt = omega arith

pub sum_below-zeros : (n : ℕ) → sum_below n (λ i. 0) ≡ 0
unfolding sum_below
sum_below-zeros zero = refl
sum_below-zeros (suc n) = omega (arith, sum_below-zeros n)

pub sum_below-le : (m n : ℕ) (f : ℕ → ℕ) → ((i : ℕ) → f i ≤ m) → sum_below n f ≤ n * m
unfolding sum_below
sum_below-le m zero f le = omega arith
sum_below-le m (suc n) f le = grind (arith, sum_below-le m n f le, le n)
