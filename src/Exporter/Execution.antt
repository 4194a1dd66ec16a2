-- ===== src/Exporter/Execution.antt =====
-- From the histograms of the CPUs to the exported histogram of execution times: what
-- `TrackExecutionTime` reads and `Apply` applies.
use connectivity_exporter.Prelude.{
  ℕ, zero, suc, ◌+◌, ◌-◌, ◌%◌, ◌^◌, ◌≡◌, refl, sym, subst, ap, ◌∙◌, arith, true, false, List, [],
  ◌∷◌, none, some, All, get_elem?, length, sum, map, ◌==◌,
}
use connectivity_exporter.Prelude.Results.{ok, ok-injective, value}
use connectivity_exporter.Metrics.Execution.{Exponential, new_execution}
use connectivity_exporter.Promextra.{
  Bounds, PrecomputedHistogram, Snapshot, new_snapshot, apply_snapshot, drop_inf,
  new_precomputed_histogram,
}
use connectivity_exporter.Promextra.Cumulative.{
  new_precomputed_histogram-IsConsistent, apply_snapshot_lem,
}
use connectivity_exporter.Packet.Histogram.{
  ExecutionHistogram, read_histogram_snapshot, verify_constants,
}
use connectivity_exporter.Packet.Histogram.Sums.{
  HaveBuckets, read_snapshot_from_map-Totals, count_at,
}

module _ (f : Bounds) where
  last_finite :
      (bounds : List f.Bound) (n : ℕ)
      → All (λ b. f.is_inf b ≡ false) bounds
      → length bounds ≡ suc n
      → (b : f.Bound) × (get_elem? bounds n ≡ some b) × (f.is_inf b ≡ false)
  last_finite [] n h e = absurd (omega (arith, e))
  last_finite (b ∷ bounds) zero h e = (b, refl, h.0)
  last_finite (b ∷ []) (suc n) h e = absurd (omega (arith, e))
  last_finite (b ∷ c ∷ bounds) (suc n) h e = last_finite (c ∷ bounds) n h.1 (omega (arith, e))

  -- Finite bounds are kept as they are.
  drop_inf-finite :
      (bounds : List f.Bound) (n : ℕ)
      → All (λ b. f.is_inf b ≡ false) bounds
      → length bounds ≡ suc n
      → drop_inf f bounds ≡ ok bounds
  unfolding drop_inf
  drop_inf-finite bounds n h e =
      let (b, at, fin) = last_finite bounds n h e in
      let last : get_elem? bounds (length bounds - 1) ≡ some b =
        ap (get_elem? bounds) (omega (arith, e)) ∙ at in
      rw (drop_inf, last, fin) refl

  execution-bounds :
      (e : Exponential f) (h : PrecomputedHistogram f)
      → new_execution f e ≡ ok h
      → length h.bounds ≡ 31
  unfolding new_execution new_precomputed_histogram
  execution-bounds e h made =
      let bounds = e.exponential_buckets 2 2 31 in
      let count : length bounds ≡ 31 =
        e.length-exponential_buckets 2 2 31 (omega arith) (omega arith) (omega arith) in
      let kept =
        drop_inf-finite bounds 30 (e.finite 2 2 31 (omega arith) (omega arith) (omega arith))
          count in
      let some_bounds : (length bounds == 0) ≡ false = ground (arith, count) in
      let now : new_precomputed_histogram f bounds
          ≡ ok (record { bounds = bounds; current_snapshot = new_snapshot (length bounds + 1) }) =
        rw (new_precomputed_histogram, some_bounds, kept) refl in
      ap (λ t. length t.bounds) (ok-injective (sym made ∙ now)) ∙ count

  -- What a read of the kernel's histograms leaves in the histogram that is exported.
  pub record Accepted (vs : List ExecutionHistogram) (h : PrecomputedHistogram f) : Type 0 where
    pub snapshot : Snapshot
    pub returns : read_histogram_snapshot (value vs) ≡ ok (some snapshot)
    pub applied : apply_snapshot f h snapshot ≡ (record h { current_snapshot = snapshot }, none)
    pub total : snapshot.total ≡ sum (map (λ v. v.total) vs) % 2 ^ 64
    pub counts :
        (i : ℕ) → count_at i snapshot.buckets ≡ sum (map (λ v. count_at i v.buckets) vs) % 2 ^ 64

  -- Once `verifyConstants` has let the number of buckets pass, the histograms of one CPU or more of
  -- that many buckets are read without a panic and without an end of the process, and their sums
  -- modulo 2 ^ 64 become the current snapshot of the exporter's histogram: `Apply` does not refuse
  -- them.
  pub execution-Accepted :
      (e : Exponential f) (h : PrecomputedHistogram f) (n : ℕ) (v : ExecutionHistogram)
      (vs : List ExecutionHistogram)
      → new_execution f e ≡ ok h
      → verify_constants n ≡ true
      → HaveBuckets n (v ∷ vs)
      → Accepted (v ∷ vs) h
  unfolding new_execution verify_constants read_histogram_snapshot
  execution-Accepted e h n v vs made verified have =
      let consistent =
        new_precomputed_histogram-IsConsistent f (e.exponential_buckets 2 2 31) h made in
      let t =
        read_snapshot_from_map-Totals v vs (subst (λ k. HaveBuckets k vs) (sym have.0) have.1) in
      let fits : (length t.snapshot.buckets == length h.bounds + 1) ≡ true =
        ground (arith, t.has_buckets, have.0, verified, execution-bounds e h made) in
      record {
        snapshot = t.snapshot;
        returns = rw (read_histogram_snapshot, t.returns) refl;
        applied = (apply_snapshot_lem f h t.snapshot consistent).1 ∙ rw fits refl;
        total = t.total;
        counts = t.counts;
      }
