-- ===== src/Promextra.antt =====
-- connectivity-exporter/promextra/promextra.go: a histogram computed elsewhere, and its snapshots.
pub mod Cumulative
pub mod Scrapes
use connectivity_exporter.Prelude.{
  ℕ, zero, suc, ◌+◌, ◌-◌, ◌%◌, ◌^◌, Bool, true, false, List, [], ◌∷◌, Option, none, some, length,
  replicate, take, drop, get_elem?, ◌==◌, if◌then◌else◌,
}
use connectivity_exporter.Prelude.Results.{
  Error, Outcome, ok, err, panic, ◌>>=◌, or_panic, bucket_count_mismatch,
}

pub record Snapshot : Type 0 where
  -- nanoseconds
  pub total : ℕ
  -- with the bucket of +Inf
  pub buckets : List ℕ

unfoldable pub new_snapshot : ℕ → Snapshot
new_snapshot bucket_count = record { total = 0; buckets = replicate bucket_count 0 }

-- What the program does with the bounds of buckets, float64 values that need not be whole.
pub record Bounds : Type 1 where
  pub Bound : Type 0
  pub is_inf : Bound → Bool
  -- `b / (1000 * 1000 * 1000)`
  pub in_seconds : Bound → Bound
  -- `float64(n)`
  pub of_uint64 : ℕ → Bound
  -- `prometheus.DefBuckets`
  pub def_buckets : List Bound

abbrev pub uint64_add : ℕ → ℕ → ℕ
uint64_add a b = (a + b) % 2 ^ 64

module _ (f : Bounds) where
  open f use {Bound, is_inf, in_seconds, of_uint64, def_buckets}

  -- The histogram's bounds, without +Inf, and its current snapshot.
  pub record PrecomputedHistogram : Type 0 where
    pub bounds : List Bound
    pub current_snapshot : Snapshot

  -- `if math.IsInf(buckets[lastIdx], 1) { buckets = buckets[:lastIdx] }`, a panic on no bucket.
  unfoldable pub drop_inf : List Bound → Outcome (List Bound)
  drop_inf buckets = do
    last ← or_panic (get_elem? buckets (length buckets - 1))
    ok (if is_inf last then take (length buckets - 1) buckets else buckets)

  unfoldable pub new_precomputed_histogram : List Bound → Outcome PrecomputedHistogram
  unfolding drop_inf new_snapshot
  new_precomputed_histogram opts_buckets = do
    bounds ← drop_inf (if length opts_buckets == 0 then def_buckets else opts_buckets)
    ok (record { bounds = bounds; current_snapshot = new_snapshot (length bounds + 1) })

  unfoldable pub check_snapshot : PrecomputedHistogram → Snapshot → Option Error
  check_snapshot h s =
      if length s.buckets == length h.current_snapshot.buckets
      then none
      else some bucket_count_mismatch

  unfoldable pub apply_snapshot :
      PrecomputedHistogram → Snapshot → PrecomputedHistogram × Option Error
  unfolding check_snapshot
  apply_snapshot h s = elim (check_snapshot h s) [
    | some e ↦ (h, some e)
    | none ↦ (record h { current_snapshot = s }, none)
  ]

  pub record ProtoBucket : Type 0 where
    pub cumulative_count : ℕ
    pub upper_bound : Bound

  pub record ProtoHistogram : Type 0 where
    pub buckets : List ProtoBucket
    pub sample_count : ℕ
    pub sample_sum : Bound

  -- The loop of `Write` over the bounds: the buckets and the running count. `snapshot.Buckets[idx]`
  -- panics out of range.
  unfoldable pub write_buckets : List Bound → List ℕ → ℕ → Outcome (List ProtoBucket × ℕ)
  write_buckets [] counts cumulative = ok ([], cumulative)
  write_buckets (b ∷ bounds) [] cumulative = panic
  write_buckets (b ∷ bounds) (c ∷ counts) cumulative = do
    let new_count = uint64_add cumulative c
    (rest, end) ← write_buckets bounds counts new_count
    ok (record { cumulative_count = new_count; upper_bound = in_seconds b } ∷ rest, end)

  unfoldable pub write : PrecomputedHistogram → Outcome ProtoHistogram
  write h = do
    let s = h.current_snapshot
    (proto, cumulative) ← write_buckets h.bounds s.buckets 0
    last ← or_panic (get_elem? s.buckets (length s.buckets - 1))
    ok (record {
      buckets = proto;
      sample_count = uint64_add cumulative last;
      sample_sum = in_seconds (of_uint64 s.total);
    })
