-- ===== src/Metrics/Execution.antt =====
-- connectivity-exporter/metrics/types.go: the histogram `execution`.
use connectivity_exporter.Prelude.{ℕ, ◌*◌, ◌^◌, ◌<◌, false, ◌≡◌, List, All, length}
use connectivity_exporter.Prelude.Results.{Outcome}
use connectivity_exporter.Promextra.{Bounds, PrecomputedHistogram, new_precomputed_histogram}

-- `prometheus.ExponentialBuckets(start, factor, count)`, for a positive start and count and a
-- factor above one: as many bounds as it is asked for. Those that a float64 can hold are not +Inf.
pub record Exponential (f : Bounds) : Type 0 where
  pub exponential_buckets : ℕ → ℕ → ℕ → List f.Bound
  pub length-exponential_buckets :
      (start factor count : ℕ)
      → 0 < start
      → 1 < factor
      → 0 < count
      → length (exponential_buckets start factor count) ≡ count
  pub finite :
      (start factor count : ℕ)
      → 0 < start
      → 1 < factor
      → start * factor ^ count < 2 ^ 53
      → All (λ b. f.is_inf b ≡ false) (exponential_buckets start factor count)

-- The package's variable `execution`.
unfoldable pub new_execution : (f : Bounds) → Exponential f → Outcome (PrecomputedHistogram f)
unfolding new_precomputed_histogram
new_execution f e = new_precomputed_histogram f (e.exponential_buckets 2 2 31)
