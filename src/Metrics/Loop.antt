-- ===== src/Metrics/Loop.antt =====
-- connectivity-exporter/metrics/metrics.go: the loop of `Apply`, and `applySnapshot`.
pub mod Totals
use connectivity_exporter.Prelude.{ℕ, List, [], ◌∷◌}
use connectivity_exporter.Prelude.Results.{Outcome, ok, ◌>>=◌}
use connectivity_exporter.Metrics.Inc.{Inc}
use connectivity_exporter.Metrics.CounterVec.{CounterVec}
use connectivity_exporter.Metrics.Apply.{Counters, apply}
use connectivity_exporter.Promextra.{Bounds, PrecomputedHistogram, Snapshot, apply_snapshot}

-- What the loop receives until it is done; a closed channel of snapshots yields `zero_snapshot`.
pub data Event : Type 0 where
  inc_received : Inc → Event
  snapshot_received : Snapshot → Event

abbrev pub zero_snapshot : Snapshot
zero_snapshot = record { total = 0; buckets = [] }

-- The increments among what `Apply` receives.
abbrev pub incs_of : List Event → List Inc
incs_of [] = []
incs_of (inc_received inc ∷ events) = inc ∷ incs_of events
incs_of (snapshot_received s ∷ events) = incs_of events

-- The package's variables `seconds`, `connections` and `execution`.
pub record Exported (C : CounterVec) (f : Bounds) : Type 0 where
  pub counters : Counters C
  pub execution : PrecomputedHistogram f

module _ (C : CounterVec) (f : Bounds) where
  -- `applySnapshot`: the error of `ApplySnapshot` is logged.
  abbrev pub apply_snapshot_logged : Exported C f → Snapshot → Exported C f
  apply_snapshot_logged x s = record x { execution = (apply_snapshot f x.execution s).0 }

  -- One turn of the loop.
  unfoldable pub receive : Event → Exported C f → Outcome (Exported C f)
  receive (inc_received inc) x = do
    counters ← apply C inc x.counters
    ok (record x { counters = counters })
  receive (snapshot_received s) x = ok (apply_snapshot_logged x s)

  unfoldable pub receive_all : List Event → Exported C f → Outcome (Exported C f)
  unfolding receive
  receive_all [] x = ok x
  receive_all (e ∷ events) x = do x1 ← receive e x; receive_all events x1
