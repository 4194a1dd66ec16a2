-- ===== src/Packet/Ring/Overlap/Sequential.antt =====
-- A tick that overlaps the kernel's writes is one after them.
use connectivity_exporter.Prelude.{
  ℕ, ◌+◌, ◌%◌, ◌^◌, ◌<◌, ◌≡◌, ◌≢◌, refl, sym, ap, ◌∙◌, arith, ite, List, [], none, some, ℕ_discrete,
}
use connectivity_exporter.Prelude.GoMap.{GoMap, keys}
use connectivity_exporter.Prelude.GoString.{GoString}
use connectivity_exporter.Prelude.Results.{ok, value, found}
use connectivity_exporter.Packet.Connection.{ConnKey, TupleData, uint64}
use connectivity_exporter.Packet.Ebpf.{Bpf, Kernel, Stats, TupleKey}
use connectivity_exporter.Packet.Tracker.{
  Env, Locals, Report, tick, finish_tick, collect_stats, delete_stats, set_inner, read_and_clean,
  get_oldest_stats_and_cleanup,
}
use connectivity_exporter.Packet.Tracker.Branches.{
  old_of, without_old, next_slot, reading, tick_read,
}
use connectivity_exporter.Packet.Ring.{IsRing, Writes}
use connectivity_exporter.Packet.Ring.Overlap.{Deleting, Overlapped}

module _ (b : Bpf) (slots : ℕ → ℕ) where
  -- What the deletions and the writes between them leave.
  record Deleted (clock fd : ℕ) (ks : List GoString) (w w' : Kernel b) : Type 0 where
    read : w'.inner_maps fd ≡ delete_stats b ks (w.inner_maps fd)
    same_slots : w'.stats_map ≡ w.stats_map
    others : (j : ℕ) → fd ≢ j → slots (clock % 20) ≢ j → w'.inner_maps j ≡ w.inner_maps j

  Deleting-Deleted :
      (clock fd : ℕ) (ks : List GoString) (w w' : Kernel b)
      → slots (clock % 20) ≢ fd
      → Deleting b slots clock fd ks w w'
      → Deleted clock fd ks w w'
  unfolding delete_stats
  Deleting-Deleted clock fd ks w w' apart Deleting.done = record {
    read = refl;
    same_slots = refl;
    others = λ j n m. refl;
  }
  Deleting-Deleted clock fd ks w w' apart (Deleting.deletes d) =
      let h = Deleting-Deleted clock fd _ _ w' apart d in
      record {
        read = ground (arith, h.read);
        same_slots = h.same_slots;
        others = λ j n m. ground (arith, h.others j n m);
      }
  Deleting-Deleted clock fd ks w w' apart (Deleting.writes {w1 = w1} v d) =
      let h = Deleting-Deleted clock fd ks w1 w' apart d in
      record {
        read = h.read ∙ ap (delete_stats b ks) (v.others fd apart);
        same_slots = h.same_slots ∙ v.same_slots;
        others = λ j n m. h.others j n m ∙ v.others j m;
      }

  -- The end of a tick gives the same, whatever the kernel holds, and sets its clock alone.
  finish_tick_same :
      (env : Env) (l : Locals) (w v : Kernel b) (old : GoMap TupleKey TupleData)
      (stats : GoMap ConnKey Stats)
      → ((finish_tick b env l v old stats).0 ≡ (finish_tick b env l w old stats).0)
        × ((finish_tick b env l v old stats).2 ≡ (finish_tick b env l w old stats).2)
        × ((finish_tick b env l w old stats).1.stats_map ≡ w.stats_map)
        × ((finish_tick b env l w old stats).1.inner_maps ≡ w.inner_maps)
  unfolding finish_tick
  finish_tick_same env l w v old stats = ground arith

  -- The tick that reads the slot as it was read, from a kernel that has made its writes.
  record Reads (l : Locals) (w : Kernel b) (fd : ℕ) (stats : GoMap ConnKey Stats) : Type 0 where
    is_slot : b.outer.lookup w.stats_map (next_slot b l) ≡ value fd
    collected : collect_stats (b.inner.iterate (w.inner_maps fd)).0 [] ≡ ok stats
    ended : (b.inner.iterate (w.inner_maps fd)).1 ≡ none

  reading_ok :
      (l : Locals) (w : Kernel b) (fd : ℕ) (stats : GoMap ConnKey Stats)
      → Reads l w fd stats
      → reading b l w ≡ (
        set_inner b
            (without_old b l w)
            fd
            (delete_stats b (keys (b.inner.iterate (w.inner_maps fd)).0) (w.inner_maps fd)),
        ok stats,
      )
  unfolding get_oldest_stats_and_cleanup read_and_clean
  reading_ok l w fd stats h =
      rw (get_oldest_stats_and_cleanup, h.is_slot)
        (rw (read_and_clean, h.collected) (rw (h.ended) refl))

  next_slot-apart : (c : ℕ) → c < 2 ^ 64 → c % 20 ≢ uint64 (c + 1) % 20
  next_slot-apart c small = omega arith

  -- A state of the kernel from which the tick runs alone to the same end.
  pub record Sequential (env : Env) (l : Locals) (w : Kernel b) (r : Report) (l' : Locals)
      (w' : Kernel b) : Type 0 where
    pub before : Kernel b
    pub writes : Writes b slots l.current_ticker_clock w before
    pub same_connections : before.connection_map ≡ w.connection_map
    pub locals : (tick b env l before).0 ≡ l'
    pub reports : (tick b env l before).2 ≡ ok r
    pub same_slots : w'.stats_map ≡ (tick b env l before).1.stats_map
    pub maps : (j : ℕ) → w'.inner_maps j ≡ (tick b env l before).1.inner_maps j

  module _ (env : Env) (l : Locals) (w : Kernel b) (r : Report) (l' : Locals) (w' : Kernel b)
      (ring : IsRing b slots w) (small : l.current_ticker_clock < 2 ^ 64)
      (o : Overlapped b slots env l w r l' w') where
    -- The kernel with all its writes, before the tick reads.
    abbrev before_all : Kernel b
    before_all = record w {
      inner_maps = λ j. ite (ℕ_discrete o.fd j) (w.inner_maps j) (o.cleaned.inner_maps j);
    }

    apart : slots (l.current_ticker_clock % 20) ≢ o.fd
    apart e =
        let c = l.current_ticker_clock in
        let at_slot : found (b.outer.lookup w.stats_map (next_slot b l)) ≡ some o.fd =
          ap (λ m. found (b.outer.lookup m (next_slot b l))) (sym o.early.same_slots)
          ∙ ap found o.is_slot in
        let is_next : slots (next_slot b l) ≡ o.fd =
          cc (ring.each (next_slot b l) (omega arith), at_slot) in
        ring.apart (c % 20) (next_slot b l) (omega arith) (omega arith) (next_slot-apart c small)
          (e ∙ sym is_next)

    deleted :
        Deleted l.current_ticker_clock o.fd
          (keys (b.inner.iterate (o.looked_up.inner_maps o.fd)).0)
          o.looked_up
          o.cleaned
    deleted = Deleting-Deleted l.current_ticker_clock o.fd _ o.looked_up o.cleaned apart o.deleting

    as_read : o.looked_up.inner_maps o.fd ≡ w.inner_maps o.fd
    as_read = o.early.others o.fd apart

    at_fd : before_all.inner_maps o.fd ≡ w.inner_maps o.fd
    at_fd = ground arith

    before-Writes : Writes b slots l.current_ticker_clock w before_all
    before-Writes = record { same_slots = refl; others = λ j ne. by_map j ne (ℕ_discrete o.fd j) }
      where
        by_map :
            (j : ℕ)
            → slots (l.current_ticker_clock % 20) ≢ j
            → (d : Dec (o.fd ≡ j))
            → ite d (w.inner_maps j) (o.cleaned.inner_maps j) ≡ w.inner_maps j
        by_map j ne (yes e) = refl
        by_map j ne (no n) = deleted.others j n ne ∙ o.early.others j ne

    before-Reads : Reads l before_all o.fd o.stats
    before-Reads =
        let same : before_all.inner_maps o.fd ≡ o.looked_up.inner_maps o.fd = at_fd ∙ sym as_read in
        record {
          is_slot = ap (λ m. b.outer.lookup m (next_slot b l)) (sym o.early.same_slots) ∙ o.is_slot;
          collected = ap (λ m. collect_stats (b.inner.iterate m).0 []) same ∙ o.collected;
          ended = ap (λ m. (b.inner.iterate m).1) same ∙ o.ended;
        }

    before-tick :
        tick b env l before_all
        ≡ finish_tick b env l
            (set_inner b (without_old b l before_all) o.fd (
              delete_stats b
                (keys (b.inner.iterate (before_all.inner_maps o.fd)).0)
                (before_all.inner_maps o.fd)))
            (old_of b l w)
            o.stats
    before-tick =
        let read = reading_ok l before_all o.fd o.stats before-Reads in
        tick_read b env l before_all o.complete o.stats (ap (λ t. t.1) read)
        ∙ ap (λ t. finish_tick b env l t.0 (old_of b l w) o.stats) read

    maps_at :
        (j : ℕ)
        → (d : Dec (o.fd ≡ j))
        → o.cleaned.inner_maps j
          ≡ ite d
              (delete_stats b
                (keys (b.inner.iterate (before_all.inner_maps o.fd)).0)
                (before_all.inner_maps o.fd))
              (ite d (w.inner_maps j) (o.cleaned.inner_maps j))
    maps_at j (no n) = refl
    maps_at j (yes e) =
        ap o.cleaned.inner_maps (sym e)
        ∙ deleted.read
        ∙ ap (λ m. delete_stats b (keys (b.inner.iterate m).0) m) (as_read ∙ sym at_fd)

    -- A tick that reports while the kernel writes, at the clock of before its Put, between the
    -- iteration of the connections, the iteration of the statistics and each of the deletions,
    -- ends as a tick that runs alone after all of those writes: from that state it makes the same
    -- report and the same locals, and leaves the same maps in the same slots. It starts from a
    -- ring of separate slots at a uint64 clock.
    pub Overlapped-Sequential : Sequential env l w r l' w'
    Overlapped-Sequential =
        let v = set_inner b (without_old b l before_all) o.fd (
          delete_stats b (keys (b.inner.iterate (before_all.inner_maps o.fd)).0)
            (before_all.inner_maps o.fd)) in
        let (locals, reports, slots_there, maps_there) =
          finish_tick_same env l o.cleaned v (old_of b l w) o.stats in
        let (l2, r2, slots_v, maps_v) = finish_tick_same env l v o.cleaned (old_of b l w) o.stats in
        record {
          before = before_all;
          writes = before-Writes;
          same_connections = refl;
          locals = ap (λ t. t.0) before-tick ∙ locals ∙ ap (λ t. t.0) o.rest;
          reports = ap (λ t. t.2) before-tick ∙ reports ∙ ap (λ t. t.2) o.rest;
          same_slots =
              sym (ap (λ t. t.1.stats_map) o.rest)
              ∙ slots_there
              ∙ deleted.same_slots
              ∙ o.early.same_slots
              ∙ sym (ap (λ t. t.1.stats_map) before-tick ∙ slots_v);
          maps = λ j.
              sym (ap (λ t. t.1.inner_maps j) o.rest)
              ∙ ap (λ g. g j) maps_there
              ∙ maps_at j (ℕ_discrete o.fd j)
              ∙ sym (ap (λ t. t.1.inner_maps j) before-tick ∙ ap (λ g. g j) maps_v);
        }
