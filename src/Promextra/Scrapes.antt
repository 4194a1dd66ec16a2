-- ===== src/Promextra/Scrapes.antt =====
-- connectivity-exporter/promextra/promextra.go under concurrent scrapes: `ApplySnapshot`, called by
-- one goroutine, and `getCurrentSnapshot`, called by each scrape, one access to memory at a time.
-- The current snapshot is two words of memory here, its total and its buckets; each is read and
-- written under the mutex.
pub mod Locked
pub mod Whole
use connectivity_exporter.Prelude.{
  ℕ, ◌≡◌, ◌≢◌, Bool, true, false, List, [], ◌∷◌, ◌++◌, ite, length, ◌==◌, ℕ_discrete,
}
use connectivity_exporter.Promextra.{Bounds, PrecomputedHistogram, Snapshot, apply_snapshot}

-- Who has the mutex.
pub data Holder : Type 0 where
  free applier : Holder
  scrape : ℕ → Holder

-- Where `ApplySnapshot` is.
pub data ApplierAt : Type 0 where
  idle unlocking : ApplierAt
  checking storing half_stored : Snapshot → ApplierAt

-- Where a scrape is: `has` is the snapshot that `getCurrentSnapshot` returned.
pub data ScrapeAt : Type 0 where
  idle reading : ScrapeAt
  half_read : ℕ → ScrapeAt
  copied has : Snapshot → ScrapeAt

pub record Memory : Type 0 where
  pub mutex : Holder
  pub total : ℕ
  pub buckets : List ℕ
  pub applying : ApplierAt
  pub scrapes : ℕ → ScrapeAt

-- A histogram that nobody uses yet.
abbrev pub at_rest : Snapshot → Memory
at_rest s = record {
  mutex = Holder.free;
  total = s.total;
  buckets = s.buckets;
  applying = ApplierAt.idle;
  scrapes = λ i. ScrapeAt.idle;
}

abbrev pub move : (ℕ → ScrapeAt) → ℕ → ScrapeAt → ℕ → ScrapeAt
move scrapes i at j = ite (ℕ_discrete i j) at (scrapes j)

-- A step, with the snapshot that `ApplySnapshot` checks in it.
pub data Access (m : Memory) : List Snapshot → Memory → Type 0 where
  lock_apply :
      (s : Snapshot)
      → m.mutex ≡ Holder.free
      → m.applying ≡ ApplierAt.idle
      → Access m [] (record m { mutex = Holder.applier; applying = ApplierAt.checking s })
  check_fits :
      (s : Snapshot)
      → m.applying ≡ ApplierAt.checking s
      → length s.buckets ≡ length m.buckets
      → Access m (s ∷ []) (record m { applying = ApplierAt.storing s })
  check_refuses :
      (s : Snapshot)
      → m.applying ≡ ApplierAt.checking s
      → length s.buckets ≢ length m.buckets
      → Access m (s ∷ []) (record m { applying = ApplierAt.unlocking })
  store_total :
      (s : Snapshot)
      → m.applying ≡ ApplierAt.storing s
      → Access m [] (record m { total = s.total; applying = ApplierAt.half_stored s })
  store_buckets :
      (s : Snapshot)
      → m.applying ≡ ApplierAt.half_stored s
      → Access m [] (record m { buckets = s.buckets; applying = ApplierAt.unlocking })
  unlock_apply :
      m.applying ≡ ApplierAt.unlocking
      → Access m [] (record m { mutex = Holder.free; applying = ApplierAt.idle })
  lock_scrape :
      (i : ℕ)
      → m.mutex ≡ Holder.free
      → m.scrapes i ≡ ScrapeAt.idle
      → Access m []
          (record m { mutex = Holder.scrape i; scrapes = move m.scrapes i ScrapeAt.reading })
  read_total :
      (i : ℕ)
      → m.scrapes i ≡ ScrapeAt.reading
      → Access m [] (record m { scrapes = move m.scrapes i (ScrapeAt.half_read m.total) })
  read_buckets :
      (i total : ℕ)
      → m.scrapes i ≡ ScrapeAt.half_read total
      → Access m [] (record m {
        scrapes =
            move m.scrapes i (ScrapeAt.copied (record { total = total; buckets = m.buckets }));
      })
  unlock_scrape :
      (i : ℕ) (s : Snapshot)
      → m.scrapes i ≡ ScrapeAt.copied s
      → Access m [] (record m { mutex = Holder.free; scrapes = move m.scrapes i (ScrapeAt.has s) })
  -- `Write` has made its metric of the copy.
  written :
      (i : ℕ) (s : Snapshot)
      → m.scrapes i ≡ ScrapeAt.has s
      → Access m [] (record m { scrapes = move m.scrapes i ScrapeAt.idle })

-- A run from rest, with the snapshots that `ApplySnapshot` has checked in it.
pub data Interleaving (first : Snapshot) : List Snapshot → Memory → Type 0 where
  rest : Interleaving first [] (at_rest first)
  then_step :
      {checked now : List Snapshot} {m m' : Memory}
      → Interleaving first checked m
      → Access m now m'
      → Interleaving first (checked ++ now) m'

-- The histogram after calls of `ApplySnapshot` one after another, with nobody else.
unfoldable pub applied :
    (f : Bounds) → PrecomputedHistogram f → List Snapshot → PrecomputedHistogram f
applied f h [] = h
applied f h (s ∷ snapshots) = applied f (apply_snapshot f h s).0 snapshots
