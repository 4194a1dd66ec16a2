-- ===== src/Promextra/Cumulative.antt =====
-- The histogram of connectivity-exporter/promextra/promextra.go: its buckets and what it exports.
use connectivity_exporter.Prelude.{
  ℕ, zero, suc, ◌+◌, ◌-◌, ◌^◌, ◌≤◌, ◌<◌, ◌≡◌, refl, ap, ap₂, subst, ◌∙◌, arith, List, [], ◌∷◌, none,
  some, length, length-replicate, take, get_elem?, sum, map, ◌==◌, if◌then◌else◌,
}
use connectivity_exporter.Prelude.Results.{
  Outcome, ok, err, panic, ◌>>=◌, ok-injective, bucket_count_mismatch,
}
use connectivity_exporter.Promextra.{
  Snapshot, new_snapshot, Bounds, PrecomputedHistogram, drop_inf, new_precomputed_histogram,
  apply_snapshot, ProtoBucket, ProtoHistogram, write_buckets, write, uint64_add,
}

-- A bucket for each bound, and one for +Inf.
abbrev pub IsConsistent : (f : Bounds) → PrecomputedHistogram f → Type 0
IsConsistent f h = length h.current_snapshot.buckets ≡ length h.bounds + 1

sum-take_last :
    (n l : ℕ) (xs : List ℕ)
    → length xs ≡ n + 1
    → get_elem? xs n ≡ some l
    → sum (take n xs) + l ≡ sum xs
sum-take_last n l [] e h = absurd (omega arith)
sum-take_last zero l (x ∷ []) e h = ground arith
sum-take_last zero l (x ∷ y ∷ xs) e h = absurd (omega arith)
sum-take_last (suc n) l (x ∷ xs) e h = omega (arith, sum-take_last n l xs (omega arith) h)

get_elem?_of_lt : (n : ℕ) (xs : List ℕ) → n < length xs → (l : ℕ) × (get_elem? xs n ≡ some l)
get_elem?_of_lt n [] h = absurd (omega arith)
get_elem?_of_lt zero (x ∷ xs) h = (x, refl)
get_elem?_of_lt (suc n) (x ∷ xs) h = get_elem?_of_lt n xs (omega arith)

module _ (f : Bounds) where
  open f use {Bound, in_seconds, of_uint64, def_buckets}

  pub counts_of : List (ProtoBucket f) → List ℕ
  counts_of bs = map (λ b. b.cumulative_count) bs

  pub bounds_of : List (ProtoBucket f) → List Bound
  bounds_of bs = map (λ b. b.upper_bound) bs

  -- The loop of `Write`, from a running count.
  record Loop (bounds : List Bound) (counts : List ℕ) (start : ℕ)
      (r : Outcome (List (ProtoBucket f) × ℕ)) : Type 0 where
    proto : List (ProtoBucket f)
    returns : r ≡ ok (proto, start + sum (take (length bounds) counts))
    uppers : bounds_of proto ≡ map in_seconds bounds
    cumulative :
        (i : ℕ)
        → i < length bounds
        → get_elem? (counts_of proto) i ≡ some (start + sum (take (suc i) counts))

  head_bucket : Bound → ℕ → ℕ → ProtoBucket f
  head_bucket b start c = record {
    cumulative_count = uint64_add start c;
    upper_bound = in_seconds b;
  }

  -- The counts of the later buckets, one place on.
  cumulative_cons :
      (b : Bound) (bounds : List Bound) (c : ℕ) (counts : List ℕ) (start : ℕ)
      (proto : List (ProtoBucket f))
      → start + c < 2 ^ 64
      → ((i : ℕ)
          → i < length bounds
          → get_elem? (counts_of proto) i ≡ some (uint64_add start c + sum (take (suc i) counts)))
      → (i : ℕ) → i < suc (length bounds)
      → get_elem? (counts_of (head_bucket b start c ∷ proto)) i
        ≡ some (start + sum (take (suc i) (c ∷ counts)))
  unfolding counts_of head_bucket
  cumulative_cons b bounds c counts start proto small later zero h = ap some (omega arith)
  cumulative_cons b bounds c counts start proto small later (suc i) h =
      later i (omega arith) ∙ ap some (omega arith)

  write_buckets-Loop :
      (bounds : List Bound) (counts : List ℕ) (start : ℕ)
      → length bounds ≤ length counts
      → start + sum counts < 2 ^ 64
      → Loop bounds counts start (write_buckets f bounds counts start)
  unfolding write_buckets counts_of bounds_of head_bucket
  write_buckets-Loop [] counts start fits small = record {
    proto = [];
    returns = ap (λ n. ok ([], n)) (omega arith);
    uppers = refl;
    cumulative = λ i h. absurd (omega arith);
  }
  write_buckets-Loop (b ∷ bounds) [] start fits small = absurd (omega arith)
  write_buckets-Loop (b ∷ bounds) (c ∷ counts) start fits small =
      let rest =
        write_buckets-Loop bounds counts (uint64_add start c) (omega arith) (omega arith) in
      record {
        proto = head_bucket b start c ∷ rest.proto;
        returns =
            rw rest.returns (ap (λ n. ok (head_bucket b start c ∷ rest.proto, n)) (omega arith));
        uppers = ap₂ ◌∷◌ refl rest.uppers;
        cumulative =
            cumulative_cons b bounds c counts start rest.proto (omega arith) rest.cumulative;
      }

  -- What `Write` exports: for each bound, in seconds, the count of the buckets up to it, and the
  -- count of all of them.
  pub record Written (h : PrecomputedHistogram f) (r : Outcome (ProtoHistogram f)) : Type 0 where
    pub exported : ProtoHistogram f
    pub returns : r ≡ ok exported
    pub uppers : bounds_of exported.buckets ≡ map in_seconds h.bounds
    pub cumulative :
        (i : ℕ)
        → i < length h.bounds
        → get_elem? (counts_of exported.buckets) i
          ≡ some (sum (take (suc i) h.current_snapshot.buckets))
    pub sample_count : exported.sample_count ≡ sum h.current_snapshot.buckets
    pub sample_sum : exported.sample_sum ≡ in_seconds (of_uint64 h.current_snapshot.total)

  -- On a consistent histogram whose counts sum up to a uint64, `Write` does not panic: it exports
  -- each bound in seconds with the sum of the counts up to it, and the sum of all counts.
  pub write-Written :
      (h : PrecomputedHistogram f)
      → IsConsistent f h
      → sum h.current_snapshot.buckets < 2 ^ 64
      → Written h (write f h)
  unfolding write
  write-Written h consistent small =
      let counts = h.current_snapshot.buckets in
      let loop = write_buckets-Loop h.bounds counts 0 (omega arith) (omega arith) in
      let (l, last) = get_elem?_of_lt (length counts - 1) counts (omega arith) in
      let place : length counts - 1 ≡ length h.bounds = omega arith in
      let total = sum-take_last (length h.bounds) l counts consistent (rw place at last) in
      record {
        exported = record {
          buckets = loop.proto;
          sample_count = uint64_add (0 + sum (take (length h.bounds) counts)) l;
          sample_sum = in_seconds (of_uint64 h.current_snapshot.total);
        };
        returns = rw (loop.returns, last) refl;
        uppers = loop.uppers;
        cumulative = λ i lt. loop.cumulative i lt ∙ ap some (omega arith);
        sample_count = omega arith;
        sample_sum = refl;
      }

  with_zeros-IsConsistent :
      (found : Outcome (List Bound)) (h : PrecomputedHistogram f)
      → (do
        bounds ← found
        ok (record { bounds = bounds; current_snapshot = new_snapshot (length bounds + 1) }))
        ≡ ok h
      → IsConsistent f h
  unfolding new_snapshot
  with_zeros-IsConsistent (ok bounds) h e =
      subst (IsConsistent f) (ok-injective e) (length-replicate (length bounds + 1) 0)
  with_zeros-IsConsistent (err x) h e = cc
  with_zeros-IsConsistent panic h e = cc

  -- A histogram that is made with given bounds, or the default ones, is consistent.
  pub new_precomputed_histogram-IsConsistent :
      (buckets : List Bound) (h : PrecomputedHistogram f)
      → new_precomputed_histogram f buckets ≡ ok h
      → IsConsistent f h
  unfolding new_precomputed_histogram
  new_precomputed_histogram-IsConsistent buckets h e =
      with_zeros-IsConsistent (drop_inf f (if length buckets == 0 then def_buckets else buckets)) h
        e

  -- On a consistent histogram, a snapshot with one count for each bound and one for +Inf becomes
  -- the current one; any other is refused with an error and changes nothing. The histogram stays
  -- consistent.
  pub apply_snapshot_lem :
      (h : PrecomputedHistogram f) (s : Snapshot)
      → IsConsistent f h
      → IsConsistent f (apply_snapshot f h s).0
        × (apply_snapshot f h s ≡ (
            if length s.buckets == length h.bounds + 1
            then (record h { current_snapshot = s }, none)
            else (h, some bucket_count_mismatch)))
  unfolding apply_snapshot
  apply_snapshot_lem h s consistent = (ground arith, ground arith)
