-- ===== src/Packet/Ports/Items.antt =====
-- The set that `AsSet` of connectivity-exporter/packet/packet.go makes of a list of items, and what
-- a range over it finds.
use mathlib.Core.List.{Mem, Perm, mem-cons, not-mem-nil}
use mathlib.Core.List.Perm
use mathlib.Core.Logic.{◌∨₁◌}
use mathlib.Core.Logic.Or
use connectivity_exporter.Prelude.{
  ◌≡◌, refl, sym, ap, ◌∙◌, arith, Bool, true, false, Bool-cases, ite, ◌&&◌, ◌||◌, List, [], ◌∷◌,
  inl, inr,
}
use connectivity_exporter.Prelude.GoMap.{GoMap, put, keys, IsMap, put-IsMap}
use connectivity_exporter.Prelude.GoString.{GoString, GoString-discrete}
use connectivity_exporter.Packet.Ports.{split, add_items, as_set}

abbrev pub any : (GoString → Bool) → List GoString → Bool
any p [] = false
any p (x ∷ xs) = p x || any p xs

abbrev pub every : (GoString → Bool) → List GoString → Bool
every p [] = true
every p (x ∷ xs) = p x && every p xs

abbrev pub Within : List GoString → List GoString → Type 0
Within xs ys = (x : GoString) → Mem x xs → Mem x ys

any-of_Mem :
    (p : GoString → Bool) (xs : List GoString) (x : GoString)
    → Mem x xs
    → p x ≡ true
    → any p xs ≡ true
any-of_Mem p [] x m h = absurd (not-mem-nil m)
any-of_Mem p (y ∷ xs) x m h =
    Or.elim (λ a c. hlevel) (mem-cons.0 m)
      (λ e. let at : p y ≡ true = ap p (sym e) ∙ h in ground (arith, at))
      (λ later. let rest = any-of_Mem p xs x later h in ground (arith, rest))

every-of_Mem :
    (p : GoString → Bool) (xs : List GoString) (x : GoString)
    → Mem x xs
    → every p xs ≡ true
    → p x ≡ true
every-of_Mem p [] x m h = absurd (not-mem-nil m)
every-of_Mem p (y ∷ xs) x m h =
    Or.elim (λ a c. hlevel) (mem-cons.0 m) (λ e. ap p e ∙ ground (arith, h))
      (λ later. every-of_Mem p xs x later (ground (arith, h)))

tail-Within : {y : GoString} {xs ys : List GoString} → Within (y ∷ xs) ys → Within xs ys
tail-Within within x m = within x (mem-cons.1 (Or.inr m))

any_mono :
    (p : GoString → Bool) (xs ys : List GoString) → Within xs ys → any p xs ≡ true → any p ys ≡ true
any_mono p [] ys within h = absurd (cc h)
any_mono p (y ∷ xs) ys within h = elim (Bool-cases (p y)) [
  | inl e ↦ any-of_Mem p ys y (within y (mem-cons.1 (Or.inl refl))) e
  | inr n ↦ any_mono p xs ys (tail-Within within) (ground (arith, n, h))
]

every_mono :
    (p : GoString → Bool) (xs ys : List GoString)
    → Within xs ys
    → every p ys ≡ true
    → every p xs ≡ true
every_mono p [] ys within h = refl
every_mono p (y ∷ xs) ys within h =
    let at = every-of_Mem p ys y (within y (mem-cons.1 (Or.inl refl))) h in
    let rest = every_mono p xs ys (tail-Within within) h in ground (arith, at, rest)

both : (c d : Bool) → (c ≡ true → d ≡ true) → (d ≡ true → c ≡ true) → c ≡ d
both true true f g = refl
both false false f g = refl
both true false f g = sym (f refl)
both false true f g = g refl

-- Lists with the same items answer alike.
pub any-same :
    (p : GoString → Bool) (xs ys : List GoString)
    → Within xs ys
    → Within ys xs
    → any p xs ≡ any p ys
any-same p xs ys there back = both _ _ (any_mono p xs ys there) (any_mono p ys xs back)

pub every-same :
    (p : GoString → Bool) (xs ys : List GoString)
    → Within xs ys
    → Within ys xs
    → every p xs ≡ every p ys
every-same p xs ys there back = both _ _ (every_mono p ys xs back) (every_mono p xs ys there)

abbrev Set : Type 0
Set = GoMap GoString (Unit {0})

Mem-tail : {x y : GoString} {xs : List GoString} → Mem x xs → Mem x (y ∷ xs)
Mem-tail m = mem-cons.1 (Or.inr m)

Mem-put :
    (set : Set) (item x : GoString)
    → Mem x (keys (put GoString-discrete set item tt))
    → (x ≡ item) ∨₁ Mem x (keys set)
unfolding put
Mem-put [] item x m = Or.elim (λ a c. hlevel) (mem-cons.0 m) Or.inl (λ n. absurd (not-mem-nil n))
Mem-put ((j, u) ∷ set) item x m =
    elim (GoString-discrete j item)
        as (λ d.
          Mem x (keys (ite d ((item, tt) ∷ set) ((j, u) ∷ put GoString-discrete set item tt)))
          → (x ≡ item) ∨₁ Mem x (j ∷ keys set)) [
            | yes e ↦ λ at.
                Or.elim (λ a c. hlevel) (mem-cons.0 at) Or.inl (λ later. Or.inr (Mem-tail later))
            | no n ↦ λ at.
                Or.elim (λ a c. hlevel) (mem-cons.0 at) (λ e. Or.inr (mem-cons.1 (Or.inl e)))
                  (λ later.
                    Or.elim (λ a c. hlevel) (Mem-put set item x later) Or.inl
                      (λ t. Or.inr (Mem-tail t)))
          ]
      m

put-Mem :
    (set : Set) (item x : GoString)
    → (x ≡ item) ∨₁ Mem x (keys set)
    → Mem x (keys (put GoString-discrete set item tt))
unfolding put
put-Mem [] item x m =
    Or.elim (λ a c. hlevel) m (λ e. mem-cons.1 (Or.inl e)) (λ n. absurd (not-mem-nil n))
put-Mem ((j, u) ∷ set) item x m =
    elim (GoString-discrete j item)
      as (λ d.
        Mem x (keys (ite d ((item, tt) ∷ set) ((j, u) ∷ put GoString-discrete set item tt)))) [
          | yes e ↦
              Or.elim (λ a c. hlevel) m (λ q. mem-cons.1 (Or.inl q))
                (λ at.
                  Or.elim (λ a c. hlevel) (mem-cons.0 at) (λ q. mem-cons.1 (Or.inl (q ∙ e)))
                    Mem-tail)
          | no n ↦
              Or.elim (λ a c. hlevel) m (λ q. Mem-tail (put-Mem set item x (Or.inl q)))
                (λ at.
                  Or.elim (λ a c. hlevel) (mem-cons.0 at) (λ q. mem-cons.1 (Or.inl q))
                    (λ later. Mem-tail (put-Mem set item x (Or.inr later))))
        ]

-- What is in the set after the loop was an item or was there before, and the other way round.
Mem-add_items :
    (items : List GoString) (set : Set) (x : GoString)
    → Mem x (keys (add_items items set))
    → Mem x items ∨₁ Mem x (keys set)
unfolding add_items
Mem-add_items [] set x m = Or.inr m
Mem-add_items (item ∷ items) set x m =
    Or.elim (λ a c. hlevel) (Mem-add_items items (put GoString-discrete set item tt) x m)
      (λ later. Or.inl (Mem-tail later))
      (λ at.
        Or.elim (λ a c. hlevel) (Mem-put set item x at) (λ q. Or.inl (mem-cons.1 (Or.inl q)))
          Or.inr)

add_items-Mem :
    (items : List GoString) (set : Set) (x : GoString)
    → Mem x items ∨₁ Mem x (keys set)
    → Mem x (keys (add_items items set))
unfolding add_items
add_items-Mem [] set x m = Or.elim (λ a c. hlevel) m (λ n. absurd (not-mem-nil n)) (λ at. at)
add_items-Mem (item ∷ items) set x m = add_items-Mem items (put GoString-discrete set item tt) x (
    Or.elim (λ a c. hlevel) m
      (λ at.
        Or.elim (λ a c. hlevel) (mem-cons.0 at) (λ q. Or.inr (put-Mem set item x (Or.inl q)))
          Or.inl)
      (λ there. Or.inr (put-Mem set item x (Or.inr there))))

add_items-IsMap :
    (items : List GoString) (set : Set)
    → IsMap GoString-discrete set
    → IsMap GoString-discrete (add_items items set)
unfolding add_items
add_items-IsMap [] set h = h
add_items-IsMap (item ∷ items) set h =
    add_items-IsMap items (put GoString-discrete set item tt)
      (put-IsMap GoString-discrete set item tt h)

-- A range over the set of a list, in any order, finds the items of the list and no other; and the
-- set holds each of them once.
pub record Ranged (list : GoString) (items : List GoString) : Type 0 where
  pub there : Within items (split list)
  pub back : Within (split list) items
  pub once : IsMap GoString-discrete (as_set list)

pub as_set-Ranged :
    (list : GoString) (items : List GoString) → Perm items (keys (as_set list)) → Ranged list items
unfolding as_set
as_set-Ranged list items p = record {
  there = λ x m.
      Or.elim (λ a c. hlevel) (Mem-add_items (split list) [] x (Perm.subset p x m)) (λ at. at)
        (λ n. absurd (not-mem-nil n));
  back = λ x m. Perm.subset (Perm.symm p) x (add_items-Mem (split list) [] x (Or.inl m));
  once = add_items-IsMap (split list) [] tt;
}
