-- ===== src/Exporter/Incs.antt =====
-- The increments of one tick, summed by key.
use mathlib.Core.List.{Mem, mem-cons, not-mem-nil}
use mathlib.Core.Logic.Or
use connectivity_exporter.Prelude.{
  ℕ, ◌+◌, ◌≡◌, ◌≢◌, refl, sym, subst, ap, ◌∙◌, arith, List, [], ◌∷◌, ite, map,
}
use connectivity_exporter.Metrics.Inc.{Inc}
use connectivity_exporter.Metrics.CounterVec.{Labels, Labels-discrete}
use connectivity_exporter.Metrics.Apply.Kinds.{key_of}
use connectivity_exporter.Metrics.Loop.Totals.{total_of}
use connectivity_exporter.Packet.Connection.{ConnKey}
use connectivity_exporter.Packet.Tracker.Keys.{NotIn, Distinct, not-mem-of_NotIn}
use connectivity_exporter.Exporter.{received}

-- The labels of a key, after the kind.
abbrev pub labels_of : ConnKey → Labels
labels_of k = k.sni ∷ k.source_ip ∷ k.dest_ip ∷ []

labels_of-injective : (j k : ConnKey) → labels_of j ≡ labels_of k → j ≡ k
labels_of-injective j k h = cc

if_not : {A : Type 0} (d : Dec A) (x rest : ℕ) → ¬ A → ite d x 0 + rest ≡ rest
if_not (yes p) x rest n = absurd (n p)
if_not (no q) x rest n = omega arith

if_so : {A : Type 0} (d : Dec A) (x rest : ℕ) → A → ite d x 0 + rest ≡ x + rest
if_so (yes p) x rest a = refl
if_so (no q) x rest a = absurd (q a)

module _ (g : ConnKey → Inc) (own : (k : ConnKey) → key_of (g k) ≡ labels_of k)
    (field : Inc → ℕ) where
  total_other :
      (k j : ConnKey) (rest : ℕ)
      → k ≢ j
      → ite (Labels-discrete (key_of (g j)) (labels_of k)) (field (g j)) 0 + rest ≡ rest
  total_other k j rest ne =
      if_not (Labels-discrete (key_of (g j)) (labels_of k)) (field (g j)) rest
        (λ e. ne (sym (labels_of-injective j k (sym (own j) ∙ e))))

  total_own :
      (k : ConnKey) (rest : ℕ)
      → ite (Labels-discrete (key_of (g k)) (labels_of k)) (field (g k)) 0 + rest
        ≡ field (g k) + rest
  total_own k rest = if_so (Labels-discrete (key_of (g k)) (labels_of k)) (field (g k)) rest (own k)

  pub total_of-NotIn :
      (k : ConnKey) (ks : List ConnKey)
      → NotIn k ks
      → total_of field (labels_of k) (received (map g ks)) ≡ 0
  total_of-NotIn k [] n = refl
  total_of-NotIn k (j ∷ ks) n = total_other k j _ n.0 ∙ total_of-NotIn k ks n.1

  -- Over distinct keys, one increment alone is of a key.
  pub total_of-Mem :
      (k : ConnKey) (ks : List ConnKey)
      → Distinct ks
      → Mem k ks
      → total_of field (labels_of k) (received (map g ks)) ≡ field (g k)
  total_of-Mem k [] d m = absurd (not-mem-nil m)
  total_of-Mem k (j ∷ ks) d m =
      Or.elim (λ x y. hlevel) (mem-cons.0 m) (λ e. at_head e)
        (λ later. in_tail later (total_of-Mem k ks d.1 later))
    where
      at_head : k ≡ j → total_of field (labels_of k) (received (map g (j ∷ ks))) ≡ field (g k)
      at_head e =
          ap (λ i. total_of field (labels_of i) (received (map g (j ∷ ks)))) e
          ∙ total_own j _
          ∙ ap (λ n. field (g j) + n) (total_of-NotIn j ks d.0)
          ∙ omega arith
          ∙ ap (λ i. field (g i)) (sym e)

      in_tail :
          Mem k ks
          → total_of field (labels_of k) (received (map g ks)) ≡ field (g k)
          → total_of field (labels_of k) (received (map g (j ∷ ks))) ≡ field (g k)
      in_tail later rest =
          total_other k j _ (λ e. not-mem-of_NotIn k ks (subst (λ i. NotIn i ks) (sym e) d.0) later)
          ∙ rest
