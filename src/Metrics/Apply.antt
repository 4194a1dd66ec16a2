-- ===== src/Metrics/Apply.antt =====
-- connectivity-exporter/metrics/metrics.go: `apply`, `DeleteMetrics`; the vectors of types.go.
pub mod Additions
pub mod Kinds
pub mod Deletion
use connectivity_exporter.Prelude.{◌≡◌, [], ◌∷◌, List}
use connectivity_exporter.Prelude.GoString.{GoString, bytes}
use connectivity_exporter.Prelude.Results.{Outcome, ok, ◌>>=◌}
use connectivity_exporter.Metrics.Inc.{Inc}
use connectivity_exporter.Metrics.CounterVec.{CounterVec, Labels}

-- The package's variables `seconds` and `connections`.
pub record Counters (C : CounterVec) : Type 0 where
  pub seconds : C.Vec
  pub connections : C.Vec

abbrev pub label_names : List GoString
label_names = bytes "kind" ∷ bytes "sni" ∷ bytes "source_ip" ∷ bytes "dest_ip" ∷ []

abbrev pub labels : GoString → Inc → Labels
labels kind inc = kind ∷ inc.sni ∷ inc.source_ip ∷ inc.dest_ip ∷ []

module _ (C : CounterVec) where
  open C use {Vec, new_counter_vec, add, delete_label_values}

  unfoldable pub new_counters : Counters C
  new_counters = record {
    seconds = new_counter_vec label_names;
    connections = new_counter_vec label_names;
  }

  unfoldable pub apply_seconds : Inc → Vec → Outcome Vec
  apply_seconds inc v = do
    v1 ← add v (labels (bytes "active") inc) inc.active_seconds
    v2 ← add v1 (labels (bytes "failed") inc) inc.failed_seconds
    add v2 (labels (bytes "active_failed") inc) inc.active_failed_seconds

  unfoldable pub apply_connections : Inc → Vec → Outcome Vec
  apply_connections inc v = do
    v1 ← add v (labels (bytes "successful") inc) inc.successful_connections
    v2 ← add v1 (labels (bytes "rejected") inc) inc.rejected_connections
    add v2 (labels (bytes "rejected_by_client") inc) inc.rejected_connections_by_client

  unfoldable pub apply : Inc → Counters C → Outcome (Counters C)
  unfolding apply_seconds apply_connections
  apply inc m = do
    s ← apply_seconds inc m.seconds
    c ← apply_connections inc m.connections
    ok (record { seconds = s; connections = c })

  abbrev pub delete3 : Vec → GoString → GoString → GoString → GoString → Vec
  delete3 v k1 k2 k3 sni =
      let v1 = (delete_label_values v (k1 ∷ sni ∷ [])).0 in
      let v2 = (delete_label_values v1 (k2 ∷ sni ∷ [])).0 in
      (delete_label_values v2 (k3 ∷ sni ∷ [])).0

  unfoldable pub delete_metrics : GoString → Counters C → Counters C
  delete_metrics sni m = record {
    seconds = delete3 m.seconds (bytes "active") (bytes "failed") (bytes "active_failed") sni;
    connections =
        delete3 m.connections (bytes "successful") (bytes "rejected") (bytes "rejected_by_client")
          sni;
  }
