-- ===== src/Tests/Promextra.antt =====
-- A histogram of two bounds, and a snapshot of three counts.
use connectivity_exporter.Prelude.{
  ◌+◌, ◌≡◌, refl, arith, [], ◌∷◌, none, some, length, ◌==◌, if◌then◌else◌, ℕ_discrete,
}
use connectivity_exporter.Prelude.Results.{bucket_count_mismatch}
use connectivity_exporter.Promextra.{Snapshot, PrecomputedHistogram, apply_snapshot, write}
use connectivity_exporter.Promextra.Cumulative.{
  IsConsistent, Written, write-Written, apply_snapshot_lem,
}
use connectivity_exporter.Promextra.Scrapes.{
  ScrapeAt, Memory, at_rest, move, Access, Interleaving, applied,
}
use connectivity_exporter.Promextra.Scrapes.Locked.{current}
use connectivity_exporter.Promextra.Scrapes.Whole.{Saw, Interleaving-Saw}
use connectivity_exporter.Tests.Models.{whole_bounds}

abbrev snapshot : Snapshot
snapshot = record { total = 4_000_000_000; buckets = 3 ∷ 0 ∷ 2 ∷ [] }

abbrev histogram : PrecomputedHistogram whole_bounds
histogram = record {
  bounds = some 1_000_000_000 ∷ some 2_000_000_000 ∷ [];
  current_snapshot = snapshot;
}

write-Written_example : Written whole_bounds histogram (write whole_bounds histogram)
write-Written_example = write-Written whole_bounds histogram refl (omega arith)

apply_snapshot_lem_example :
    IsConsistent whole_bounds (apply_snapshot whole_bounds histogram snapshot).0
    × (apply_snapshot whole_bounds histogram snapshot ≡ (
        if length snapshot.buckets == length histogram.bounds + 1
        then (record histogram { current_snapshot = snapshot }, none)
        else (histogram, some bucket_count_mismatch)))
apply_snapshot_lem_example = apply_snapshot_lem whole_bounds histogram snapshot refl

-- A snapshot is applied while scrape 1 waits; scrape 1 then reads it.
abbrev next : Snapshot
next = record { total = 7; buckets = 1 ∷ 1 ∷ 1 ∷ [] }

next_applied : Interleaving snapshot (next ∷ []) (at_rest next)
next_applied =
    Interleaving.then_step
      (Interleaving.then_step
        (Interleaving.then_step
          (Interleaving.then_step
            (Interleaving.then_step Interleaving.rest (Access.lock_apply next refl refl))
            (Access.check_fits next refl refl))
          (Access.store_total next refl))
        (Access.store_buckets next refl))
      (Access.unlock_apply refl)

abbrev scraped : Memory
scraped = record (at_rest next) {
  scrapes =
      move
        (move (move (move (λ i. ScrapeAt.idle) 1 ScrapeAt.reading) 1 (ScrapeAt.half_read 7)) 1
          (ScrapeAt.copied next))
        1 (ScrapeAt.has next);
}

next_scraped : Interleaving snapshot (next ∷ []) scraped
unfolding ℕ_discrete
next_scraped =
    Interleaving.then_step
      (Interleaving.then_step
        (Interleaving.then_step
          (Interleaving.then_step next_applied (Access.lock_scrape 1 refl refl))
          (Access.read_total 1 refl))
        (Access.read_buckets 1 7 refl))
      (Access.unlock_scrape 1 next refl)

Interleaving-Saw_example :
    ((applied whole_bounds histogram (next ∷ [])).current_snapshot ≡ current scraped)
    × Saw whole_bounds histogram (next ∷ []) next
unfolding ℕ_discrete
Interleaving-Saw_example =
    Interleaving-Saw whole_bounds histogram (next ∷ []) scraped 1 next next_scraped refl
