-- ===== src/Packet/Ring/Failures.antt =====
-- A tick that fails, on the delay line.
use connectivity_exporter.Prelude.{
  ℕ, ◌+◌, ◌%◌, ◌^◌, ◌<◌, ◌≡◌, ◌≢◌, refl, ap, ◌∙◌, arith, Option, none, some,
}
use connectivity_exporter.Prelude.GoMap.{GoMap}
use connectivity_exporter.Prelude.Results.{
  Error, Outcome, ok, err, panic, Reply, value, failure, found,
}
use connectivity_exporter.Packet.Connection.{ConnKey, TupleData}
use connectivity_exporter.Packet.Ebpf.{Bpf, Kernel, Stats, TupleKey}
use connectivity_exporter.Packet.Tracker.{
  Env, Locals, tick, get_oldest_stats_and_cleanup, read_and_clean, finish_tick,
}
use connectivity_exporter.Packet.Tracker.Branches.{
  reading, next_slot, without_old, old_of, tick_iterate_error, tick_read_error, tick_read_panic,
  tick_read,
}
use connectivity_exporter.Packet.Ring.Pops.{IsRing-same, slots_apart}
use connectivity_exporter.Packet.Ring.{IsRing, line}

module _ (b : Bpf) where
  -- Only the inner map of a slot may have changed, and no slot.
  record Touches (w w' : Kernel b) (k : ℕ) : Type 0 where
    same_slots : w'.stats_map ≡ w.stats_map
    others :
        (fd j : ℕ)
        → found (b.outer.lookup w.stats_map k) ≡ some fd
        → fd ≢ j
        → w'.inner_maps j ≡ w.inner_maps j

  read_and_clean_others :
      (w : Kernel b) (fd j : ℕ)
      → ((read_and_clean b w fd).0.stats_map ≡ w.stats_map)
        × (fd ≢ j → (read_and_clean b w fd).0.inner_maps j ≡ w.inner_maps j)
  unfolding read_and_clean
  read_and_clean_others w fd j = (ground arith, λ ne. ground arith)

  get_oldest-Touches : (w : Kernel b) (k : ℕ) → Touches w (get_oldest_stats_and_cleanup b w k).0 k
  unfolding get_oldest_stats_and_cleanup
  get_oldest-Touches w k = by_slot (b.outer.lookup w.stats_map k) refl
    where
      by_slot :
          (r : Reply ℕ)
          → b.outer.lookup w.stats_map k ≡ r
          → Touches w (get_oldest_stats_and_cleanup b w k).0 k
      by_slot (failure e) q =
          rw (get_oldest_stats_and_cleanup, q)
            (record { same_slots = refl; others = λ fd j h ne. refl })
      by_slot (value fd) q =
          rw (get_oldest_stats_and_cleanup, q)
            (record {
              same_slots = (read_and_clean_others w fd 0).0;
              others = λ fd' j h ne. (read_and_clean_others w fd j).1 (λ e. ne (cc (ap found q)));
            })

  finish_tick_err :
      (env : Env) (l : Locals) (w : Kernel b) (old : GoMap TupleKey TupleData)
      (stats : GoMap ConnKey Stats) (e : Error)
      → (finish_tick b env l w old stats).2 ≡ err e
      → ((finish_tick b env l w old stats).0 ≡ l) × ((finish_tick b env l w old stats).1 ≡ w)
  unfolding finish_tick
  finish_tick_err env l w old stats e h = ground arith

  -- A tick that logs an error leaves the locals, and touches no slot but the next one.
  record Failed (l l' : Locals) (w w' : Kernel b) : Type 0 where
    locals : l' ≡ l
    touches : Touches w w' (next_slot b l)

  tick-Failed :
      (env : Env) (l : Locals) (w : Kernel b) (e : Error)
      → (tick b env l w).2 ≡ err e
      → Failed l (tick b env l w).0 w (tick b env l w).1
  tick-Failed env l w e h =
      by_reply (b.connection.iterate w.connection_map).1 refl (reading b l w).1 refl
    where
      touched : Touches w (reading b l w).0 (next_slot b l)
      touched =
          let t = get_oldest-Touches (without_old b l w) (next_slot b l) in
          record { same_slots = t.same_slots; others = t.others }

      by_reply :
          (o : Option Error)
          → (b.connection.iterate w.connection_map).1 ≡ o
          → (r : Outcome (GoMap ConnKey Stats)) → (reading b l w).1 ≡ r
          → Failed l (tick b env l w).0 w (tick b env l w).1
      by_reply (some x) p r q = rw (tick_iterate_error b env l w x p) (record {
        locals = refl;
        touches = record { same_slots = refl; others = λ fd j i ne. refl };
      })
      by_reply none p (err x) q =
          rw (tick_read_error b env l w p x q) (record { locals = refl; touches = touched })
      by_reply none p panic q = absurd (cc (tick_read_panic b env l w p q))
      by_reply none p (ok stats) q =
          let read = tick_read b env l w p stats q in
          let (kept, same) =
            finish_tick_err env l (reading b l w).0 (old_of b l w) stats e (rw read at h) in
          rw read (record { locals = kept; touches = rw same touched })

-- A tick that logs an error, below the wrap of the clock, leaves the line as it was but for its
-- oldest map, and leaves the ring and the locals.
pub record Keeps (b : Bpf) (slots : ℕ → ℕ) (l l' : Locals) (w w' : Kernel b) : Type 0 where
  pub locals : l' ≡ l
  pub ring : IsRing b slots w'
  pub kept :
      (i : ℕ)
      → 0 < i
      → i < 20
      → line b slots w' l.current_ticker_clock i ≡ line b slots w l.current_ticker_clock i

pub tick-Keeps :
    (b : Bpf) (slots : ℕ → ℕ) (env : Env) (l : Locals) (w : Kernel b) (e : Error)
    → IsRing b slots w
    → l.current_ticker_clock + 1 < 2 ^ 64
    → (tick b env l w).2 ≡ err e
    → Keeps b slots l (tick b env l w).0 w (tick b env l w).1
unfolding line
tick-Keeps b slots env l w e ring small h =
    let f = tick-Failed b env l w e h in
    let c = l.current_ticker_clock in
    record {
      locals = f.locals;
      ring = IsRing-same b slots w (tick b env l w).1 f.touches.same_slots ring;
      kept = λ i pos lt.
          f.touches.others (slots ((c + 1) % 20)) (slots ((c + 1 + i) % 20))
            (ap (λ k. found (b.outer.lookup w.stats_map k)) (omega arith)
              ∙ ring.each ((c + 1) % 20) (omega arith))
            (slots_apart b slots w (c + 1) (c + 1 + i) ring (omega arith));
    }
