-- ===== src/Packet/Histogram/Sums.antt =====
-- Snapshots and sums over the CPUs, for `readSnapshotFromMap` of packet/bpf.go.
use connectivity_exporter.Prelude.{
  ℕ, zero, suc, ◌+◌, ◌%◌, ◌^◌, ◌<◌, ◌≡◌, refl, sym, subst, ap, ◌∙◌, arith, List, [], ◌∷◌, length,
  sum, map, All, replicate, length-replicate,
}
use connectivity_exporter.Prelude.Results.{Outcome, ok, value}
use connectivity_exporter.Promextra.{Snapshot, new_snapshot, uint64_add}
use connectivity_exporter.Packet.Histogram.{
  ExecutionHistogram, add_buckets, add_values, read_snapshot_from_map,
}

-- The `i`-th count, or zero.
abbrev pub count_at : ℕ → List ℕ → ℕ
count_at i [] = 0
count_at zero (x ∷ xs) = x
count_at (suc i) (x ∷ xs) = count_at i xs

abbrev IsWord : ℕ → Type 0
IsWord n = n < 2 ^ 64

record Added (acc xs : List ℕ) (r : Outcome (List ℕ)) : Type 0 where
  after : List ℕ
  returns : r ≡ ok after
  same_length : length after ≡ length acc
  words : All IsWord after
  counts : (i : ℕ) → count_at i after ≡ (count_at i acc + count_at i xs) % 2 ^ 64

count_at-IsWord : (i : ℕ) (xs : List ℕ) → All IsWord xs → IsWord (count_at i xs)
count_at-IsWord i [] h = omega arith
count_at-IsWord zero (x ∷ xs) h = h.0
count_at-IsWord (suc i) (x ∷ xs) h = count_at-IsWord i xs h.1

counts-cons :
    (a x : ℕ) (acc xs after : List ℕ)
    → ((i : ℕ) → count_at i after ≡ (count_at i acc + count_at i xs) % 2 ^ 64)
    → (i : ℕ)
    → count_at i (uint64_add a x ∷ after) ≡ (count_at i (a ∷ acc) + count_at i (x ∷ xs)) % 2 ^ 64
counts-cons a x acc xs after later zero = refl
counts-cons a x acc xs after later (suc i) = later i

add_buckets-Added :
    (acc xs : List ℕ) → length acc ≡ length xs → All IsWord acc → Added acc xs (add_buckets acc xs)
unfolding add_buckets
add_buckets-Added [] [] e h = record {
  after = [];
  returns = refl;
  same_length = refl;
  words = tt;
  counts = λ i. refl;
}
add_buckets-Added [] (x ∷ xs) e h = absurd (omega arith)
add_buckets-Added (a ∷ acc) [] e h = absurd (omega arith)
add_buckets-Added (a ∷ acc) (x ∷ xs) e h =
    let rest : Added acc xs (add_buckets acc xs) = add_buckets-Added acc xs (omega arith) h.1 in
    record {
      after = uint64_add a x ∷ rest.after;
      returns = rw rest.returns refl;
      same_length = ap suc rest.same_length;
      words = (omega arith, rest.words);
      counts = counts-cons a x acc xs rest.after rest.counts;
    }

-- The sum over the CPUs, from a snapshot.
pub record Summed (vs : List ExecutionHistogram) (s : Snapshot) (r : Outcome Snapshot)
    : Type 0 where
  pub after : Snapshot
  pub returns : r ≡ ok after
  pub same_length : length after.buckets ≡ length s.buckets
  pub total : after.total ≡ (s.total + sum (map (λ v. v.total) vs)) % 2 ^ 64
  pub counts :
      (i : ℕ)
      → count_at i after.buckets
        ≡ (count_at i s.buckets + sum (map (λ v. count_at i v.buckets) vs)) % 2 ^ 64

abbrev pub HaveBuckets : ℕ → List ExecutionHistogram → Type 0
HaveBuckets n vs = All (λ v. length v.buckets ≡ n) vs

add_values-Summed :
    (vs : List ExecutionHistogram) (s : Snapshot)
    → HaveBuckets (length s.buckets) vs
    → IsWord s.total
    → All IsWord s.buckets
    → Summed vs s (add_values vs s)
unfolding add_values
add_values-Summed [] s have small words = record {
  after = s;
  returns = refl;
  same_length = refl;
  total = omega arith;
  counts = λ i. omega (arith, count_at-IsWord i s.buckets words);
}
add_values-Summed (v ∷ vs) s have small words =
    let one = add_buckets-Added s.buckets v.buckets (omega (arith, have.0)) words in
    let s1 : Snapshot = record { total = uint64_add s.total v.total; buckets = one.after } in
    let rest = add_values-Summed vs s1 (rw one.same_length have.1) (omega arith) one.words in
    record {
      after = rest.after;
      returns = rw one.returns rest.returns;
      same_length = omega (arith, rest.same_length, one.same_length);
      total = omega (arith, rest.total);
      counts = λ i. omega (arith, rest.counts i, one.counts i);
    }

count_at-zeros : (i n : ℕ) → count_at i (replicate n 0) ≡ 0
count_at-zeros i zero = refl
count_at-zeros zero (suc n) = refl
count_at-zeros (suc i) (suc n) = count_at-zeros i n

words-zeros : (n : ℕ) → All IsWord (replicate n 0)
words-zeros zero = tt
words-zeros (suc n) = (omega arith, words-zeros n)

pub record Totals (vs : List ExecutionHistogram) (n : ℕ) (r : Outcome Snapshot) : Type 0 where
  pub snapshot : Snapshot
  pub returns : r ≡ ok snapshot
  pub has_buckets : length snapshot.buckets ≡ n
  pub total : snapshot.total ≡ sum (map (λ v. v.total) vs) % 2 ^ 64
  pub counts :
      (i : ℕ) → count_at i snapshot.buckets ≡ sum (map (λ v. count_at i v.buckets) vs) % 2 ^ 64

all-have :
    (n : ℕ) (v : ExecutionHistogram) (vs : List ExecutionHistogram)
    → length v.buckets ≡ n
    → HaveBuckets n vs
    → HaveBuckets (length (new_snapshot n).buckets) (v ∷ vs)
unfolding new_snapshot
all-have n v vs e have = subst (λ k. HaveBuckets k (v ∷ vs)) (sym (length-replicate n 0)) (e, have)

-- When the lookup answers with the histograms of one CPU or more, each of the same number of
-- buckets, `readSnapshotFromMap` returns a snapshot of that many buckets, whose total and whose
-- counts are the sums over the CPUs, modulo 2 ^ 64.
pub read_snapshot_from_map-Totals :
    (v : ExecutionHistogram) (vs : List ExecutionHistogram)
    → HaveBuckets (length v.buckets) vs
    → Totals (v ∷ vs) (length v.buckets) (read_snapshot_from_map (value (v ∷ vs)))
unfolding read_snapshot_from_map new_snapshot
read_snapshot_from_map-Totals v vs have =
    let n = length v.buckets in
    let all =
      add_values-Summed (v ∷ vs) (new_snapshot n) (all-have n v vs refl have) (omega arith)
        (words-zeros n) in
    record {
      snapshot = all.after;
      returns = all.returns;
      has_buckets = all.same_length ∙ length-replicate n 0;
      total = omega (arith, all.total);
      counts = λ i. omega (arith, all.counts i, count_at-zeros i n);
    }
