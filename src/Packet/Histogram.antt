-- ===== src/Packet/Histogram.antt =====
-- `readSnapshotFromMap` and `verifyConstants` of connectivity-exporter/packet/bpf.go and
-- `readHistogramSnapshot` of packet/packet.go: the histograms of the CPUs, added up.
pub mod Sums
use connectivity_exporter.Prelude.{
  ℕ, Bool, true, false, List, [], ◌∷◌, Option, none, some, ◌==◌, if◌then◌else◌, length,
}
use connectivity_exporter.Prelude.Results.{
  Outcome, ok, err, panic, ◌>>=◌, Reply, value, failure, read_histogram,
}
use connectivity_exporter.Promextra.{Snapshot, new_snapshot, uint64_add}

-- `struct execution_histogram`: an array of BUCKET_COUNT buckets, with that of +Inf.
pub record ExecutionHistogram : Type 0 where
  pub total : ℕ
  pub buckets : List ℕ

-- `snapshot.Buckets[idx] += bucketValue` for each bucket; a panic out of range.
unfoldable pub add_buckets : List ℕ → List ℕ → Outcome (List ℕ)
add_buckets acc [] = ok acc
add_buckets [] (x ∷ xs) = panic
add_buckets (a ∷ acc) (x ∷ xs) = do rest ← add_buckets acc xs; ok (uint64_add a x ∷ rest)

-- The loop over the values of the CPUs.
unfoldable pub add_values : List ExecutionHistogram → Snapshot → Outcome Snapshot
add_values [] s = ok s
add_values (v ∷ vs) s = do
  buckets ← add_buckets s.buckets v.buckets
  add_values vs (record { total = uint64_add s.total v.total; buckets = buckets })

-- `values[0]` panics on no value.
unfoldable pub read_snapshot_from_map : Reply (List ExecutionHistogram) → Outcome Snapshot
unfolding add_values new_snapshot
read_snapshot_from_map (failure e) = err (read_histogram e)
read_snapshot_from_map (value []) = panic
read_snapshot_from_map (value (v ∷ vs)) = add_values (v ∷ vs) (new_snapshot (length v.buckets))

-- `readHistogramSnapshot`: `none` if it has ended the process, as it does on an error.
unfoldable pub read_histogram_snapshot : Reply (List ExecutionHistogram) → Outcome (Option Snapshot)
unfolding read_snapshot_from_map
read_histogram_snapshot r = elim (read_snapshot_from_map r) [
  | panic ↦ panic
  | err e ↦ ok none
  | ok s ↦ ok (some s)
]

-- ExecutionBucketCount of constants/const.go, with the bucket of +Inf.
abbrev pub execution_bucket_count : ℕ
execution_bucket_count = 32

-- `verifyConstants`, for the number of buckets of the C struct: whether the process goes on.
unfoldable pub verify_constants : ℕ → Bool
verify_constants buckets = buckets == execution_bucket_count
