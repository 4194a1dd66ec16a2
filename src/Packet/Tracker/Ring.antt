-- ===== src/Packet/Tracker/Ring.antt =====
-- The ring of twenty slots of statistics, for `getOldestStatsAndCleanup` of packet/packet.go.
use connectivity_exporter.Prelude.{
  ℕ, ◌+◌, ◌%◌, ◌^◌, ◌<◌, ◌≡◌, ◌≢◌, refl, ap, ◌∙◌, ite, arith, Bool, true, false, List, [], ◌∷◌,
  none, some, if◌then◌else◌,
}
use connectivity_exporter.Prelude.GoString.{GoString, GoString-discrete}
use connectivity_exporter.Prelude.GoMap.{GoMap, get, keys}
use connectivity_exporter.Prelude.Results.{ok, Reply, value, failure, found}
use connectivity_exporter.Packet.Connection.{ConnKey, uint64}
use connectivity_exporter.Packet.Ebpf.{Bpf, Kernel, Stats}
use connectivity_exporter.Packet.Tracker.{
  Env, Locals, set_inner, Report, collect_stats, delete_stats, read_and_clean,
  get_oldest_stats_and_cleanup, tick,
}
use connectivity_exporter.Packet.Tracker.Branches.{
  finish_tick_ok, without_old, next_slot, reading, old_of, tick-TickOk,
}

abbrev contains : List GoString → GoString → Bool
contains [] j = false
contains (n ∷ names) j = ite (GoString-discrete n j) true (contains names j)

get_of_contains :
    {V : Type 0} (m : GoMap GoString V) (j : GoString)
    → contains (keys m) j ≡ false
    → get GoString-discrete m j ≡ none
unfolding get
get_of_contains [] j h = refl
get_of_contains ((k, v) ∷ m) j h = ground (arith, get_of_contains m j)

module _ (b : Bpf) where
  lookup-delete_stats :
      (ks : List GoString) (m : b.inner.Map) (j : GoString)
      → found (b.inner.lookup (delete_stats b ks m) j)
        ≡ (if contains ks j then none else found (b.inner.lookup m j))
  unfolding delete_stats
  lookup-delete_stats [] m j = refl
  lookup-delete_stats (k ∷ ks) m j =
      ground (arith, lookup-delete_stats ks (b.inner.delete m k) j, b.inner.lookup-delete m k j)

  -- Deleting every key of an iteration that was complete empties the map.
  emptied :
      (m : b.inner.Map) (j : GoString)
      → (b.inner.iterate m).1 ≡ none
      → found (b.inner.lookup (delete_stats b (keys (b.inner.iterate m).0) m) j) ≡ none
  emptied m j complete = ground (
    arith,
    lookup-delete_stats (keys (b.inner.iterate m).0) m j,
    get_of_contains (b.inner.iterate m).0 j,
    b.inner.get-iterate m j complete,
  )

  -- Between two states of the kernel: only the inner map `fd` has changed, and it is empty.
  pub record Cleaned (w w' : Kernel b) (stats_key fd : ℕ) (out : GoMap ConnKey Stats) : Type 0 where
    pub is_slot : found (b.outer.lookup w.stats_map stats_key) ≡ some fd
    pub collected : collect_stats (b.inner.iterate (w.inner_maps fd)).0 [] ≡ ok out
    pub same_slots : w'.stats_map ≡ w.stats_map
    pub empty : (key : GoString) → found (b.inner.lookup (w'.inner_maps fd) key) ≡ none
    pub others : (j : ℕ) → fd ≢ j → w'.inner_maps j ≡ w.inner_maps j

  read_and_clean_ok :
      (w : Kernel b) (fd : ℕ) (out : GoMap ConnKey Stats)
      → (read_and_clean b w fd).1 ≡ ok out
      → ((b.inner.iterate (w.inner_maps fd)).1 ≡ none)
        × (collect_stats (b.inner.iterate (w.inner_maps fd)).0 [] ≡ ok out)
        × ((read_and_clean b w fd).0
            ≡ set_inner b w fd
                (delete_stats b (keys (b.inner.iterate (w.inner_maps fd)).0) (w.inner_maps fd)))
  unfolding read_and_clean
  read_and_clean_ok w fd out h = ground arith

  read_and_clean-Cleaned :
      (w : Kernel b) (k fd : ℕ) (out : GoMap ConnKey Stats)
      → found (b.outer.lookup w.stats_map k) ≡ some fd
      → (read_and_clean b w fd).1 ≡ ok out
      → Cleaned w (read_and_clean b w fd).0 k fd out
  read_and_clean-Cleaned w k fd out slot h =
      let (complete, collected, e) = read_and_clean_ok w fd out h in
      rw e (record {
        is_slot = slot;
        collected = collected;
        same_slots = refl;
        empty = λ key. ground (arith, emptied (w.inner_maps fd) key);
        others = λ j ne. ground arith;
      })

  pub get_oldest-Cleaned :
      (w : Kernel b) (k : ℕ) (out : GoMap ConnKey Stats)
      → (get_oldest_stats_and_cleanup b w k).1 ≡ ok out
      → (fd : ℕ) × Cleaned w (get_oldest_stats_and_cleanup b w k).0 k fd out
  unfolding get_oldest_stats_and_cleanup
  get_oldest-Cleaned w k out h = slot (b.outer.lookup w.stats_map k) refl
    where
      slot :
          (r : Reply ℕ)
          → b.outer.lookup w.stats_map k ≡ r
          → (fd : ℕ) × Cleaned w (get_oldest_stats_and_cleanup b w k).0 k fd out
      slot (failure e) q = absurd (ground arith)
      slot (value fd) q = (
        fd,
        rw (q, get_oldest_stats_and_cleanup)
            (read_and_clean-Cleaned w k fd out (ap found q)
              (rw (q, get_oldest_stats_and_cleanup) at h)),
      )

  -- The slot that comes next: its map is empty, and the rest of the ring is as it was.
  pub record NextSlot (l l' : Locals) (w w' : Kernel b) : Type 0 where
    pub clock : l'.current_ticker_clock ≡ uint64 (l.current_ticker_clock + 1)
    pub fd : ℕ
    pub is_slot : found (b.outer.lookup w.stats_map (l'.current_ticker_clock % 20)) ≡ some fd
    pub same_slots : w'.stats_map ≡ w.stats_map
    pub empty : (key : GoString) → found (b.inner.lookup (w'.inner_maps fd) key) ≡ none
    pub others : (j : ℕ) → fd ≢ j → w'.inner_maps j ≡ w.inner_maps j
    pub not_current : l'.current_ticker_clock % 20 ≢ l.current_ticker_clock % 20

-- After a tick that reports, from a clock below 2 ^ 64, the clock has gone on by one, modulo 2 ^ 64;
-- the slot of the new clock holds an empty map, and is not the slot of the old clock; no slot has
-- changed its map, and no other inner map has changed.
pub tick-NextSlot :
    (b : Bpf) (env : Env) (l : Locals) (w : Kernel b) (r : Report)
    → l.current_ticker_clock < 2 ^ 64
    → (tick b env l w).2 ≡ ok r
    → NextSlot b l (tick b env l w).0 w (tick b env l w).1
tick-NextSlot b env l w r small h =
    let t = tick-TickOk b env l w r h in
    let (fd, c) = get_oldest-Cleaned b (without_old b l w) (next_slot b l) t.stats t.read in
    let (clock, same, maps) =
      finish_tick_ok b env l (reading b l w).0 (old_of b l w) t.stats r (rw t.rest at h) in
    rw t.rest (record {
      clock = clock;
      fd = fd;
      is_slot = rw clock c.is_slot;
      same_slots = same ∙ c.same_slots;
      empty = λ key. rw maps (c.empty key);
      others = λ j ne. rw maps (c.others j ne);
      not_current = rw clock (omega arith);
    })
