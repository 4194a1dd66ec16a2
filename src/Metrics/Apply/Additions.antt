-- ===== src/Metrics/Apply/Additions.antt =====
-- Three additions to a vector of counters, one after the other.
use connectivity_exporter.Prelude.{
  ℕ, ◌≡◌, ◌≢◌, ite, fun_ext, ap, ◌∙◌, arith, Option, some, true, ◌∷◌, length,
}
use connectivity_exporter.Prelude.GoString.{GoString}
use connectivity_exporter.Prelude.Results.{Outcome, ok, ◌>>=◌}
use connectivity_exporter.Metrics.CounterVec.{
  CounterVec, Labels, Labels-discrete, or_zero, all_text,
}

module _ (C : CounterVec) where
  open C use {Vec, add, value, label_count, add_ok, plus}

  -- One addition, seen through the values of a vector.
  abbrev pub bump : Labels → ℕ → (Labels → Option ℕ) → Labels → Option ℕ
  bump ls x old js = ite (Labels-discrete ls js) (some (plus (or_zero (old js)) x)) (old js)

  -- Three additions in a row.
  pub record Added (v : Vec) (a b c : Labels) (x y z : ℕ) (r : Outcome Vec) : Type 0 where
    pub after : Vec
    pub returns : r ≡ ok after
    pub count : label_count after ≡ label_count v
    pub at : (js : Labels) → value after js ≡ bump c z (bump b y (bump a x (value v))) js

  add-bump :
      (v : Vec) (a : Labels) (x : ℕ)
      → length a ≡ label_count v
      → all_text C.is_text a ≡ true
      → (w : Vec) × (add v a x ≡ ok w)
        × (label_count w ≡ label_count v)
        × (value w ≡ bump a x (value v))
  add-bump v a x h t =
      let (w, e, n, at) = add_ok v a x h t in (w, e, n, fun_ext λ js. ground (arith, at js))

  pub add3 :
      (v : Vec) (a b c : Labels) (x y z : ℕ)
      → length a ≡ label_count v
      → length b ≡ label_count v
      → length c ≡ label_count v
      → all_text C.is_text a ≡ true
      → all_text C.is_text b ≡ true
      → all_text C.is_text c ≡ true
      → Added v a b c x y z (do v1 ← add v a x; v2 ← add v1 b y; add v2 c z)
  add3 v a b c x y z ha hb hc ta tb tc =
      let (w1, e1, n1, at1) = add-bump v a x ha ta in
      let (w2, e2, n2, at2) = add-bump w1 b y (omega arith) tb in
      let (w3, e3, n3, at3) = add-bump w2 c z (omega arith) tc in
      record {
        after = w3;
        returns = rw (e1, e2, e3);
        count = omega arith;
        at = λ js. rw (at3, at2, at1);
      }

  abbrev pub raise : Labels → Labels → ℕ → ℕ → ℕ
  raise own key x old = ite (Labels-discrete own key) (plus old x) old

  bump_other :
      (key own : Labels) (k j : GoString) (x : ℕ) (old : Labels → Option ℕ)
      → j ≢ k
      → bump (j ∷ own) x old (k ∷ key) ≡ old (k ∷ key)
  bump_other key own k j x old n = ground arith

  bump_same :
      (key own : Labels) (k : GoString) (x : ℕ) (old : Labels → Option ℕ)
      → or_zero (bump (k ∷ own) x old (k ∷ key)) ≡ raise own key x (or_zero (old (k ∷ key)))
  bump_same key own k x old = ground arith

  -- Of three additions under distinct labels, each label sees its own.
  module _ (key own : Labels) (a b c : GoString) (x y z : ℕ) (old : Labels → Option ℕ) where
    abbrev pub one_added : Labels → Option ℕ
    one_added = bump (a ∷ own) x old

    abbrev pub two_added : Labels → Option ℕ
    two_added = bump (b ∷ own) y one_added

    abbrev pub three_added : Labels → ℕ
    three_added js = or_zero (bump (c ∷ own) z two_added js)

    pub first_added :
        b ≢ a → c ≢ a → three_added (a ∷ key) ≡ raise own key x (or_zero (old (a ∷ key)))
    first_added nb nc =
        ap or_zero (bump_other key own a c z two_added nc ∙ bump_other key own a b y one_added nb)
        ∙ bump_same key own a x old

    pub second_added :
        a ≢ b → c ≢ b → three_added (b ∷ key) ≡ raise own key y (or_zero (old (b ∷ key)))
    second_added na nc =
        ap or_zero (bump_other key own b c z two_added nc)
        ∙ bump_same key own b y one_added
        ∙ ap (λ o. raise own key y (or_zero o)) (bump_other key own b a x old na)

    pub third_added :
        a ≢ c → b ≢ c → three_added (c ∷ key) ≡ raise own key z (or_zero (old (c ∷ key)))
    third_added na nb =
        bump_same key own c z two_added
        ∙ ap (λ o. raise own key z (or_zero o))
            (bump_other key own c b y one_added nb ∙ bump_other key own c a x old na)
