-- ===== src/Exporter/Says.antt =====
-- What the increments of a tick say of the kernel's counts, key by key.
use mathlib.Core.List.{Mem, Perm, mem-cons}
use mathlib.Core.Logic.Or
use mathlib.Core.List.Perm
use connectivity_exporter.Prelude.{
  ℕ, ◌+◌, ◌^◌, ◌<◌, ◌≡◌, refl, sym, subst, ap, ◌∙◌, arith, Bool, false, List, [], ◌∷◌, Option, none,
  some, ltb, map, if◌then◌else◌,
}
use connectivity_exporter.Prelude.GoMap.{GoMap, get, keys, IsMap}
use connectivity_exporter.Metrics.Inc.{Inc}
use connectivity_exporter.Metrics.Apply.Kinds.{key_of}
use connectivity_exporter.Metrics.Loop.Totals.{total_of}
use connectivity_exporter.Packet.Connection.{ConnKey, ConnKey-discrete}
use connectivity_exporter.Packet.Account.{account_for_connections, scan_connections, judge}
use connectivity_exporter.Packet.Account.Verdict.{account_for_connections-Verdict}
use connectivity_exporter.Packet.Ebpf.{Stats}
use connectivity_exporter.Packet.Tracker.{get_or}
use connectivity_exporter.Packet.Tracker.Judged.{judged}
use connectivity_exporter.Packet.Tracker.Keys.{
  NotIn-of_get, Perm-NotIn, Perm-Distinct, IsMap-Distinct,
}
use connectivity_exporter.Packet.Tracker.Collected.{AllStats}
use connectivity_exporter.Packet.Tracker.Reports.{fresh_verdict}
use connectivity_exporter.Exporter.{received}
use connectivity_exporter.Exporter.Incs.{labels_of, total_of-NotIn, total_of-Mem}

-- Counts that a float64 holds exactly.
abbrev pub IsExact : Stats → Type 0
IsExact v = v.0 + v.1 < 2 ^ 53

abbrev pub flag : Bool → ℕ
flag b = if b then 1 else 0

-- What an increment says of the kernel's counts of its key.
pub record Says (v : Stats) (inc : Inc) : Type 0 where
  pub successful : inc.successful_connections ≡ v.0
  pub rejected : inc.rejected_connections ≡ v.1
  pub by_client : inc.rejected_connections_by_client ≡ 0
  pub active : inc.active_seconds ≡ flag (ltb 0 (v.0 + v.1))
  pub active_failed : inc.active_failed_seconds ≡ flag (ltb 0 v.1)

judged-Says :
    (k : ConnKey) (previous : Bool) (v : Stats) → IsExact v → Says v (judged k previous [] v).0
judged-Says k previous v exact =
    let h =
      account_for_connections-Verdict 0 (record { snis = [] }) k previous [] v.0 v.1
        (omega arith) in
    record {
      successful = h.successes ∙ omega arith;
      rejected = h.rejections ∙ omega arith;
      by_client = h.client_rejections;
      active = h.active ∙ ap (λ n. flag (ltb 0 n)) (omega arith);
      active_failed = ground (arith, h.active_failed);
    }

pub Mem-of_get :
    (m : GoMap ConnKey Stats) (k : ConnKey) (v : Stats)
    → get ConnKey-discrete m k ≡ some v
    → Mem k (keys m)
unfolding get
Mem-of_get [] k v h = absurd (cc h)
Mem-of_get ((j, w) ∷ m) k v h = elim (ConnKey-discrete j k) [
  | yes e ↦ mem-cons.1 (Or.inl (sym e))
  | no n ↦ mem-cons.1 (Or.inr (Mem-of_get m k v (ground (arith, h))))
]

abbrev pub or_none : Option Stats → Stats
or_none o = elim o [ none ↦ (0, 0) | some v ↦ v ]

module _ (previous : GoMap ConnKey Bool) (stats : GoMap ConnKey Stats) (ks : List ConnKey)
    (perm : Perm ks (keys stats)) (is_map : IsMap ConnKey-discrete stats)
    (exact : AllStats IsExact stats) where
  -- The increment of a key.
  abbrev inc_of : ConnKey → Inc
  inc_of k = (fresh_verdict previous stats k).0

  inc_of-key : (k : ConnKey) → key_of (inc_of k) ≡ labels_of k
  unfolding account_for_connections scan_connections judge
  inc_of-key k = refl

  abbrev counts_of : ConnKey → Stats
  counts_of k = get_or ConnKey-discrete stats k (0, 0)

  -- A field that is a function of the kernel's counts, summed over the increments of one key.
  pub total_of-counts :
      (field : Inc → ℕ) (F : Stats → ℕ) (k : ConnKey)
      → F (0, 0) ≡ 0
      → ((v : Stats) → Says v (inc_of k) → field (inc_of k) ≡ F v)
      → total_of field (labels_of k) (received (map inc_of ks)) ≡ F (counts_of k)
  unfolding AllStats
  total_of-counts field F k zeroed says = by_value (get ConnKey-discrete stats k) refl
    where
      before : Bool
      before = get_or ConnKey-discrete previous k false

      by_value :
          (o : Option Stats)
          → get ConnKey-discrete stats k ≡ o
          → total_of field (labels_of k) (received (map inc_of ks)) ≡ F (counts_of k)
      by_value none q =
          total_of-NotIn inc_of inc_of-key field k ks
            (Perm-NotIn k (Perm.symm perm) (NotIn-of_get stats k q))
          ∙ sym zeroed
          ∙ ap (λ o. F (or_none o)) (sym q)
      by_value (some v) q =
          total_of-Mem inc_of inc_of-key field k ks
            (Perm-Distinct (Perm.symm perm) (IsMap-Distinct stats is_map))
            (Perm.subset (Perm.symm perm) k (Mem-of_get stats k v q))
          ∙ says v (
              subst (λ o. Says v (judged k before [] (or_none o)).0) (sym q)
                (judged-Says k before v (exact k v q)))
          ∙ ap (λ o. F (or_none o)) (sym q)
