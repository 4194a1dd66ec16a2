-- ===== src/Tests/Exporter.antt =====
-- A tick whose increments are applied to new counters.
use connectivity_exporter.Prelude.{
  ℕ, zero, suc, ◌+◌, ◌*◌, ◌%◌, ◌^◌, ◌<◌, ◌≡◌, refl, ap, arith, true, false, Option, some, All, List,
  [], ◌∷◌, length, replicate,
}
use connectivity_exporter.Prelude.Results.{found, ok}
use connectivity_exporter.Metrics.Execution.{Exponential, new_execution}
use connectivity_exporter.Promextra.{
  PrecomputedHistogram, new_snapshot, new_precomputed_histogram, drop_inf,
}
use connectivity_exporter.Packet.Histogram.{ExecutionHistogram, verify_constants}
use connectivity_exporter.Exporter.Execution.{Accepted, execution-Accepted}
use connectivity_exporter.Metrics.Inc.{Inc}
use connectivity_exporter.Metrics.CounterVec.{Labels}
use connectivity_exporter.Metrics.Apply.Kinds.{label, conn_label, amount, conn_amount}
use connectivity_exporter.Metrics.Loop.Totals.{total_of, Ready}
use connectivity_exporter.Packet.Tracker.{init_locals, tick}
use connectivity_exporter.Exporter.{received}
use connectivity_exporter.Exporter.Says.{IsExact}
use connectivity_exporter.Exporter.Counts.{Exports, tick-Exports}
use connectivity_exporter.Tests.Models.{bpf, vectors, whole_bounds}
use connectivity_exporter.Tests.Tracker.{env, kernel, report, env-Ranges, tick_reports}
use connectivity_exporter.Tests.Metrics.{
  inc, exported, new_counters-IsValid, seconds_zero, connections_zero, amount-lt, conn_amount-lt,
}

one-lt :
    (field : Inc → ℕ) (key : Labels) (old : ℕ)
    → old ≡ 0
    → field inc < 3
    → old + total_of field key (received report.incs) < 2 ^ 53
one-lt field key old zeroed small = ground arith

report-Ready : Ready vectors whole_bounds (received report.incs) exported
report-Ready = record {
  valid = new_counters-IsValid;
  texts = refl;
  consistent = refl;
  seconds_fit = λ k key. one-lt (amount k) key _ (seconds_zero (label k ∷ key)) (amount-lt k);
  connections_fit = λ k key.
      one-lt (conn_amount k) key _ (connections_zero (conn_label k ∷ key)) (conn_amount-lt k);
}

counts-IsExact :
    (fd : ℕ)
    → found (
        bpf.outer.lookup kernel.stats_map
          ((tick bpf env init_locals kernel).0.current_ticker_clock % 20))
      ≡ some fd
    → All (λ e. IsExact e.1) (bpf.inner.iterate (kernel.inner_maps fd)).0
counts-IsExact fd h = (omega arith, tt)

tick-Exports_example :
    Exports vectors whole_bounds bpf (tick bpf env init_locals kernel).0 kernel report exported
tick-Exports_example =
    tick-Exports vectors whole_bounds bpf env init_locals kernel report exported env-Ranges
      counts-IsExact tick_reports report-Ready

-- Bounds of whole nanoseconds, doubling.
abbrev powers : ℕ → ℕ → ℕ → List (Option ℕ)
powers start factor zero = []
powers start factor (suc count) = some start ∷ powers (start * factor) factor count

length-powers : (start factor count : ℕ) → length (powers start factor count) ≡ count
length-powers start factor zero = refl
length-powers start factor (suc count) = ap suc (length-powers (start * factor) factor count)

powers-finite :
    (start factor count : ℕ) → All (λ b. whole_bounds.is_inf b ≡ false) (powers start factor count)
powers-finite start factor zero = tt
powers-finite start factor (suc count) = (refl, powers-finite (start * factor) factor count)

abbrev doubling : Exponential whole_bounds
doubling = record {
  exponential_buckets = powers;
  length-exponential_buckets = λ start factor count p q r. length-powers start factor count;
  finite = λ start factor count p q r. powers-finite start factor count;
}

abbrev execution : PrecomputedHistogram whole_bounds
execution = record { bounds = powers 2 2 31; current_snapshot = new_snapshot 32 }

execution_made : new_execution whole_bounds doubling ≡ ok execution
unfolding new_execution new_precomputed_histogram drop_inf new_snapshot
execution_made = refl

abbrev cpu : ExecutionHistogram
cpu = record { total = 700; buckets = replicate 32 3 }

verified : verify_constants 32 ≡ true
unfolding verify_constants
verified = refl

execution-Accepted_example : Accepted whole_bounds (cpu ∷ cpu ∷ []) execution
execution-Accepted_example =
    execution-Accepted whole_bounds doubling execution 32 cpu (cpu ∷ []) execution_made verified
      (refl, (refl, tt))
