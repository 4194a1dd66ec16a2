-- ===== src/Promextra/Scrapes/Whole.antt =====
-- A scrape never sees a snapshot half stored.
use mathlib.Core.List.{append-nil, append_assoc}
use connectivity_exporter.Prelude.{
  ℕ, ◌≡◌, inl, inr, refl, sym, ap, ◌∙◌, arith, List, [], ◌∷◌, ◌++◌, length,
}
use connectivity_exporter.Promextra.{
  Bounds, PrecomputedHistogram, Snapshot, apply_snapshot, check_snapshot, write,
}
use connectivity_exporter.Promextra.Scrapes.{
  ScrapeAt, Memory, at_rest, Access, Interleaving, applied,
}
use connectivity_exporter.Promextra.Scrapes.Locked.{
  stored, current_by, current, Held, rest-Held, Access-Held, Access-returned, copied-current,
}

module _ (f : Bounds) where
  applied-append :
      (h : PrecomputedHistogram f) (before now : List Snapshot)
      → applied f h (before ++ now) ≡ applied f (applied f h before) now
  unfolding applied
  applied-append h [] now = refl
  applied-append h (s ∷ before) now = applied-append (apply_snapshot f h s).0 before now

  bounds-applied :
      (h : PrecomputedHistogram f) (snapshots : List Snapshot)
      → (applied f h snapshots).bounds ≡ h.bounds
  unfolding applied apply_snapshot
  bounds-applied h [] = refl
  bounds-applied h (s ∷ snapshots) =
      bounds-applied (apply_snapshot f h s).0 snapshots ∙ ground arith

  -- The memory of a mutex follows the calls of `ApplySnapshot`, one after another.
  Access-current :
      {m m' : Memory} {now : List Snapshot} (h : PrecomputedHistogram f)
      → Access m now m'
      → Held m
      → h.current_snapshot ≡ current m
      → (applied f h now).current_snapshot ≡ current m'
  unfolding applied apply_snapshot check_snapshot
  Access-current h (Access.lock_apply s p q) held e = ground (arith, e)
  Access-current {m} h (Access.check_fits s p q) held e =
      let here = e ∙ ap (λ a. current_by a (stored m)) p in
      let sizes = ap (λ t. length t.buckets) here in ground (arith, here, sizes, q)
  Access-current {m} h (Access.check_refuses s p q) held e =
      let here = e ∙ ap (λ a. current_by a (stored m)) p in
      let sizes = ap (λ t. length t.buckets) here in ground (arith, here, sizes, q)
  Access-current h (Access.store_total s p) held e = ground (arith, e)
  Access-current h (Access.store_buckets s p) held e = ground (arith, e, held.half_stored s p)
  Access-current h (Access.unlock_apply p) held e = ground (arith, e)
  Access-current h (Access.lock_scrape i p q) held e = e
  Access-current h (Access.read_total i p) held e = e
  Access-current h (Access.read_buckets i total p) held e = e
  Access-current h (Access.unlock_scrape i s p) held e = e
  Access-current h (Access.written i s p) held e = e

  -- A snapshot that was the current one after some of the calls, and what `Write` makes of it.
  pub record Saw (h : PrecomputedHistogram f) (checked : List Snapshot) (s : Snapshot)
      : Type 0 where
    pub before : List Snapshot
    pub after : List Snapshot
    pub order : checked ≡ before ++ after
    pub same : s ≡ (applied f h before).current_snapshot
    pub exports : write f (record h { current_snapshot = s }) ≡ write f (applied f h before)

  with_snapshot :
      (h g : PrecomputedHistogram f)
      → g.bounds ≡ h.bounds
      → record h { current_snapshot = g.current_snapshot } ≡ g
  with_snapshot h g e = ground (arith, e)

  Saw-now :
      (h : PrecomputedHistogram f) (checked : List Snapshot) (s : Snapshot)
      → s ≡ (applied f h checked).current_snapshot
      → Saw h checked s
  Saw-now h checked s e = record {
    before = checked;
    after = [];
    order = sym (append-nil checked);
    same = e;
    exports =
        ap (λ t. write f (record h { current_snapshot = t })) e
        ∙ ap (write f) (with_snapshot h (applied f h checked) (bounds-applied h checked));
  }

  Saw-before :
      (h : PrecomputedHistogram f) (checked now : List Snapshot) (s : Snapshot)
      → Saw h checked s
      → Saw h (checked ++ now) s
  Saw-before h checked now s w = record {
    before = w.before;
    after = w.after ++ now;
    order = ap (λ l. l ++ now) w.order ∙ append_assoc w.before w.after now;
    same = w.same;
    exports = w.exports;
  }

  -- What holds in a run: memory follows the calls, and what a scrape was given was the
  -- current snapshot.
  pub record Sees (h : PrecomputedHistogram f) (checked : List Snapshot) (m : Memory) : Type 0 where
    pub held : Held m
    pub follows : (applied f h checked).current_snapshot ≡ current m
    pub returned : (i : ℕ) (s : Snapshot) → m.scrapes i ≡ ScrapeAt.has s → Saw h checked s

  rest-Sees : (h : PrecomputedHistogram f) → Sees h [] (at_rest h.current_snapshot)
  unfolding applied
  rest-Sees h = record {
    held = rest-Held h.current_snapshot;
    follows = refl;
    returned = λ i s e. absurd (cc e);
  }

  Access-Sees :
      (h : PrecomputedHistogram f) (checked : List Snapshot) {m m' : Memory} {now : List Snapshot}
      → Access m now m'
      → Sees h checked m
      → Sees h (checked ++ now) m'
  Access-Sees h checked {m} {m'} {now} step s = record {
    held = Access-Held step s.held;
    follows =
        ap (λ g. g.current_snapshot) (applied-append h checked now)
        ∙ Access-current (applied f h checked) step s.held s.follows;
    returned = λ i v e. elim (Access-returned step i v e) [
      | inl there ↦ Saw-before h checked now v (s.returned i v there)
      | inr copy ↦
          Saw-before h checked now v
            (Saw-now h checked v (copied-current m s.held i v copy ∙ sym s.follows))
    ];
  }

  Interleaving-Sees :
      (h : PrecomputedHistogram f) {checked : List Snapshot} {m : Memory}
      → Interleaving h.current_snapshot checked m
      → Sees h checked m
  Interleaving-Sees h Interleaving.rest = rest-Sees h
  Interleaving-Sees h (Interleaving.then_step {checked} run step) =
      Access-Sees h checked step (Interleaving-Sees h run)

  -- Whatever the interleaving of the calls of `ApplySnapshot` with any number of scrapes, what
  -- `getCurrentSnapshot` returns to a scrape is, whole, the snapshot that was current after some of the
  -- calls, as if they were made one after another with nobody else, and `Write` exports what it exports
  -- of the histogram then; what memory holds, or will hold when a store that has begun is over, is
  -- the current snapshot after all of the calls.
  pub Interleaving-Saw :
      (h : PrecomputedHistogram f) (checked : List Snapshot) (m : Memory) (i : ℕ) (s : Snapshot)
      → Interleaving h.current_snapshot checked m
      → m.scrapes i ≡ ScrapeAt.has s
      → ((applied f h checked).current_snapshot ≡ current m) × Saw h checked s
  Interleaving-Saw h checked m i s run e =
      let sees = Interleaving-Sees h run in (sees.follows, sees.returned i s e)
