-- ===== src/Exporter/Totals.antt =====
-- The increments of a tick, summed for any labels.
use connectivity_exporter.Prelude.{
  ℕ, ◌+◌, ◌≤◌, ◌≡◌, ◌≢◌, refl, sym, subst, ap, ◌∙◌, arith, Bool, false, List, [], ◌∷◌, Option, none,
  some, ite, map,
}
use mathlib.Core.List.{Perm}
use mathlib.Core.List.Perm
use connectivity_exporter.Prelude.GoMap.{GoMap, get, keys, IsMap}
use connectivity_exporter.Metrics.Inc.{Inc}
use connectivity_exporter.Metrics.CounterVec.{Labels, Labels-discrete}
use connectivity_exporter.Metrics.Apply.Kinds.{
  Kind, active, failed, active_failed, ConnKind, successful, rejected, rejected_by_client, amount,
  conn_amount, key_of,
}
use connectivity_exporter.Metrics.Loop.{Event, inc_received, snapshot_received, incs_of}
use connectivity_exporter.Metrics.Loop.Totals.{total_of}
use connectivity_exporter.Packet.Account.{account_for_connections, scan_connections, judge}
use connectivity_exporter.Packet.Account.Verdict.{seconds-Ordered}
use connectivity_exporter.Packet.Connection.{ConnKey, ConnKey-discrete}
use connectivity_exporter.Packet.Ebpf.{Stats}
use connectivity_exporter.Packet.Tracker.{get_or}
use connectivity_exporter.Packet.Tracker.Keys.{
  NotIn-of_get, Perm-NotIn, Perm-Distinct, IsMap-Distinct,
}
use connectivity_exporter.Packet.Tracker.Collected.{AllStats}
use connectivity_exporter.Packet.Tracker.Reports.{fresh_verdict}
use connectivity_exporter.Exporter.{received}
use connectivity_exporter.Exporter.Incs.{labels_of, total_of-NotIn, total_of-Mem}
use connectivity_exporter.Exporter.Says.{IsExact, Mem-of_get, total_of-counts, or_none, Says}

-- A number for each key, seen from the labels of a counter: labels of no key have none.
abbrev pub of_labels : (ConnKey → ℕ) → Labels → ℕ
of_labels g (sni ∷ source ∷ dest ∷ []) =
    g (record { source_ip = source; dest_ip = dest; sni = sni })
of_labels g _ = 0

-- Snapshots add nothing.
pub total_of-incs_of :
    (field : Inc → ℕ) (key : Labels) (events : List Event)
    → total_of field key events ≡ total_of field key (received (incs_of events))
total_of-incs_of field key [] = refl
total_of-incs_of field key (inc_received inc ∷ events) =
    ap (λ n. ite (Labels-discrete (key_of inc) key) (field inc) 0 + n)
      (total_of-incs_of field key events)
total_of-incs_of field key (snapshot_received s ∷ events) = total_of-incs_of field key events

-- Which of the kernel's counts a counter of connections counts.
abbrev pub count_of : ConnKind → Stats → ℕ
count_of successful v = v.0
count_of rejected v = v.1
count_of rejected_by_client v = 0

module _ (g : ConnKey → Inc) (own : (k : ConnKey) → key_of (g k) ≡ labels_of k)
    (field : Inc → ℕ) where
  no_total :
      (key : Labels) (ks : List ConnKey)
      → ((k : ConnKey) → labels_of k ≢ key)
      → total_of field key (received (map g ks)) ≡ 0
  no_total key [] other = refl
  no_total key (k ∷ ks) other =
      elim (Labels-discrete (key_of (g k)) key)
        as (λ d. ite d (field (g k)) 0 + total_of field key (received (map g ks)) ≡ 0) [
          | yes e ↦ absurd (other k (sym (own k) ∙ e))
          | no n ↦ omega (arith, no_total key ks other)
        ]

  -- Over distinct keys, at most one increment alone is of a key.
  total-le_field :
      (k : ConnKey) (m : ℕ) (ks : List ConnKey) (o : Option Stats) (stats : GoMap ConnKey Stats)
      → get ConnKey-discrete stats k ≡ o
      → Perm ks (keys stats)
      → IsMap ConnKey-discrete stats
      → field (g k) ≤ m
      → total_of field (labels_of k) (received (map g ks)) ≤ m
  total-le_field k m ks none stats q perm is_map le = omega (
    arith,
    total_of-NotIn g own field k ks (Perm-NotIn k (Perm.symm perm) (NotIn-of_get stats k q)),
  )
  total-le_field k m ks (some v) stats q perm is_map le = omega (
    arith,
    total_of-Mem g own field k ks (Perm-Distinct (Perm.symm perm) (IsMap-Distinct stats is_map))
        (Perm.subset (Perm.symm perm) k (Mem-of_get stats k v q)),
  )

module _ (previous : GoMap ConnKey Bool) (stats : GoMap ConnKey Stats) (ks : List ConnKey)
    (perm : Perm ks (keys stats)) (is_map : IsMap ConnKey-discrete stats)
    (exact : AllStats IsExact stats) where
  abbrev inc_of : ConnKey → Inc
  inc_of k = (fresh_verdict previous stats k).0

  inc_of-key : (k : ConnKey) → key_of (inc_of k) ≡ labels_of k
  unfolding account_for_connections scan_connections judge
  inc_of-key k = refl

  abbrev counts_of : ConnKey → Stats
  counts_of k = get_or ConnKey-discrete stats k (0, 0)

  of_count :
      (kind : ConnKind) (k : ConnKey) (v : Stats)
      → Says v (inc_of k)
      → conn_amount kind (inc_of k) ≡ count_of kind v
  of_count successful k v says = says.successful
  of_count rejected k v says = says.rejected
  of_count rejected_by_client k v says = says.by_client

  count_of-zero : (kind : ConnKind) → count_of kind (0, 0) ≡ 0
  count_of-zero successful = refl
  count_of-zero rejected = refl
  count_of-zero rejected_by_client = refl

  -- The connections that the increments add to a counter.
  pub conn_total :
      (kind : ConnKind) (key : Labels)
      → total_of (conn_amount kind) key (received (map inc_of ks))
        ≡ of_labels (λ k. count_of kind (counts_of k)) key
  conn_total kind [] = no_total inc_of inc_of-key (conn_amount kind) [] ks (λ k e. cc)
  conn_total kind (a ∷ []) = no_total inc_of inc_of-key (conn_amount kind) _ ks (λ k e. cc)
  conn_total kind (a ∷ c ∷ []) = no_total inc_of inc_of-key (conn_amount kind) _ ks (λ k e. cc)
  conn_total kind (sni ∷ source ∷ dest ∷ []) =
      total_of-counts previous stats ks perm is_map exact (conn_amount kind) (count_of kind)
        (record { source_ip = source; dest_ip = dest; sni = sni }) (count_of-zero kind)
        (of_count kind _)
  conn_total kind (a ∷ c ∷ d ∷ e ∷ key) =
      no_total inc_of inc_of-key (conn_amount kind) _ ks (λ k e. cc)

  counts_of-IsExact : (k : ConnKey) → IsExact (counts_of k)
  unfolding AllStats
  counts_of-IsExact k = by_value (get ConnKey-discrete stats k) refl
    where
      by_value : (o : Option Stats) → get ConnKey-discrete stats k ≡ o → IsExact (counts_of k)
      by_value none q = subst (λ o. IsExact (or_none o)) (sym q) (omega arith)
      by_value (some v) q = subst (λ o. IsExact (or_none o)) (sym q) (exact k v q)

  once : (kind : Kind) (k : ConnKey) → amount kind (inc_of k) ≤ 1
  once kind k =
      let (le, le', same, active_once, failed_once) =
        seconds-Ordered 0 (record { snis = [] }) k (get_or ConnKey-discrete previous k false) []
          (counts_of k).0 (counts_of k).1 (omega (arith, counts_of-IsExact k)) in
      by_kind kind le active_once failed_once
    where
      by_kind :
          (kind : Kind)
          → (inc_of k).active_failed_seconds ≤ (inc_of k).active_seconds
          → (inc_of k).active_seconds ≤ 1
          → (inc_of k).failed_seconds ≤ 1
          → amount kind (inc_of k) ≤ 1
      by_kind active le a f = a
      by_kind failed le a f = f
      by_kind active_failed le a f = omega arith

  -- They add at most one second to a counter.
  pub seconds_total :
      (kind : Kind) (key : Labels) → total_of (amount kind) key (received (map inc_of ks)) ≤ 1
  seconds_total kind [] = omega (arith, no_total inc_of inc_of-key (amount kind) [] ks (λ k e. cc))
  seconds_total kind (a ∷ []) =
      omega (arith, no_total inc_of inc_of-key (amount kind) (a ∷ []) ks (λ k e. cc))
  seconds_total kind (a ∷ c ∷ []) =
      omega (arith, no_total inc_of inc_of-key (amount kind) (a ∷ c ∷ []) ks (λ k e. cc))
  seconds_total kind (sni ∷ source ∷ dest ∷ []) =
      let k : ConnKey = record { source_ip = source; dest_ip = dest; sni = sni } in
      total-le_field inc_of inc_of-key (amount kind) k 1 ks (get ConnKey-discrete stats k) stats
        refl perm is_map (once kind k)
  seconds_total kind (a ∷ c ∷ d ∷ e ∷ key) =
      omega (arith, no_total inc_of inc_of-key (amount kind) (a ∷ c ∷ d ∷ e ∷ key) ks (λ k e. cc))
