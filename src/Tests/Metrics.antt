-- ===== src/Tests/Metrics.antt =====
-- An increment applied to new counters, and an SNI deleted from them.
use connectivity_exporter.Prelude.Results.{panic}
use connectivity_exporter.Prelude.{
  ℕ, ◌+◌, ◌^◌, ◌<◌, ◌≡◌, refl, arith, List, [], ◌∷◌, some, true, false, ◌⊎◌,
}
use connectivity_exporter.Prelude.GoString.{bytes}
use connectivity_exporter.Metrics.Inc.{Inc}
use connectivity_exporter.Metrics.Apply.{new_counters, apply, delete_metrics}
use connectivity_exporter.Metrics.Apply.Kinds.{
  Kind, ConnKind, active, failed, active_failed, successful, rejected, rejected_by_client, label,
  conn_label, amount, conn_amount, reading, IsValid, Applied, apply_lem, has_text,
}
use connectivity_exporter.Metrics.Apply.Deletion.{delete_metrics-noop}
use connectivity_exporter.Prelude.GoMap.{get}
use connectivity_exporter.Metrics.CounterVec.{Labels}
use connectivity_exporter.Metrics.Loop.{
  Event, inc_received, snapshot_received, zero_snapshot, Exported, receive_all,
}
use connectivity_exporter.Metrics.Loop.Totals.{
  total_of, Ready, Totalled, receive_all-Totalled, receive_all_panics,
}
use connectivity_exporter.Promextra.{PrecomputedHistogram}
use connectivity_exporter.Tests.Models.{vectors, whole_bounds}

abbrev pub inc : Inc
inc = record {
  active_seconds = 1;
  failed_seconds = 1;
  active_failed_seconds = 1;
  successful_connections = 2;
  rejected_connections = 1;
  rejected_connections_by_client = 0;
  sni = bytes "a";
  source_ip = bytes "10.0.0.1";
  dest_ip = bytes "10.0.0.2";
}

pub new_counters-IsValid : IsValid vectors (new_counters vectors)
unfolding new_counters
new_counters-IsValid = record { seconds_labels = refl; connections_labels = refl }

apply_lem_example :
    ((has_text vectors inc ≡ true)
      × Applied vectors inc (new_counters vectors) (apply vectors inc (new_counters vectors)))
    ⊎ ((has_text vectors inc ≡ false) × (apply vectors inc (new_counters vectors) ≡ panic))
apply_lem_example = apply_lem vectors inc (new_counters vectors) new_counters-IsValid

delete_metrics-noop_example :
    delete_metrics vectors (bytes "a") (new_counters vectors) ≡ new_counters vectors
delete_metrics-noop_example =
    delete_metrics-noop vectors (new_counters vectors) (bytes "a") new_counters-IsValid

abbrev pub histogram : PrecomputedHistogram whole_bounds
histogram = record {
  bounds = some 7 ∷ [];
  current_snapshot = record { total = 0; buckets = 0 ∷ 0 ∷ [] };
}

abbrev pub exported : Exported vectors whole_bounds
exported = record { counters = new_counters vectors; execution = histogram }

-- An increment, a snapshot, and the value of the closed channel.
abbrev events : List Event
events =
    inc_received inc
    ∷ snapshot_received (record { total = 5; buckets = 1 ∷ 2 ∷ [] })
    ∷ snapshot_received zero_snapshot
    ∷ []

field-lt :
    (field : Inc → ℕ) (key : Labels) (old : ℕ)
    → old ≡ 0
    → field inc < 3
    → old + total_of field key events < 2 ^ 53
field-lt field key old zeroed small = ground arith

pub amount-lt : (k : Kind) → amount k inc < 3
amount-lt active = omega arith
amount-lt failed = omega arith
amount-lt active_failed = omega arith

pub conn_amount-lt : (k : ConnKind) → conn_amount k inc < 3
conn_amount-lt successful = omega arith
conn_amount-lt rejected = omega arith
conn_amount-lt rejected_by_client = omega arith

pub seconds_zero : (ls : Labels) → reading vectors (new_counters vectors).seconds ls ≡ 0
unfolding new_counters get
seconds_zero ls = refl

pub connections_zero : (ls : Labels) → reading vectors (new_counters vectors).connections ls ≡ 0
unfolding new_counters get
connections_zero ls = refl

events-Ready : Ready vectors whole_bounds events exported
events-Ready = record {
  valid = new_counters-IsValid;
  texts = refl;
  consistent = refl;
  seconds_fit = λ k key. field-lt (amount k) key _ (seconds_zero (label k ∷ key)) (amount-lt k);
  connections_fit = λ k key.
      field-lt (conn_amount k) key _ (connections_zero (conn_label k ∷ key)) (conn_amount-lt k);
}

receive_all-Totalled_example :
    Totalled vectors whole_bounds events exported (receive_all vectors whole_bounds events exported)
receive_all-Totalled_example =
    receive_all-Totalled vectors whole_bounds events exported events-Ready

-- An SNI of the one byte 255, which begins no character.
abbrev bad_events : List Event
bad_events = snapshot_received zero_snapshot ∷ inc_received (record inc { sni = 255 ∷ [] }) ∷ events

receive_all_panics_example : receive_all vectors whole_bounds bad_events exported ≡ panic
receive_all_panics_example =
    receive_all_panics vectors whole_bounds bad_events exported new_counters-IsValid refl
