-- ===== src/Packet/Tracker/Branches.antt =====
-- One tick of `TrackConnections`, branch by branch.
use connectivity_exporter.Prelude.{ℕ, ◌+◌, ◌%◌, ◌≡◌, refl, arith, [], Option, none, some}
use connectivity_exporter.Prelude.GoMap.{GoMap}
use connectivity_exporter.Prelude.Results.{Error, Outcome, ok, err, panic}
use connectivity_exporter.Packet.Connection.{ConnKey, TupleData, uint64}
use connectivity_exporter.Packet.Ebpf.{Bpf, Kernel, Stats, TupleKey}
use connectivity_exporter.Packet.Tracker.{
  Env, Locals, Report, get_oldest_stats_and_cleanup, finish_tick, tick, old_connections,
  delete_connections,
}

module _ (b : Bpf) where
  pub finish_tick_ok :
      (env : Env) (l : Locals) (w : Kernel b) (old : GoMap TupleKey TupleData)
      (stats : GoMap ConnKey Stats) (r : Report)
      → (finish_tick b env l w old stats).2 ≡ ok r
      → ((finish_tick b env l w old stats).0.current_ticker_clock
          ≡ uint64 (l.current_ticker_clock + 1))
        × ((finish_tick b env l w old stats).1.stats_map ≡ w.stats_map)
        × ((finish_tick b env l w old stats).1.inner_maps ≡ w.inner_maps)
  unfolding finish_tick
  finish_tick_ok env l w old stats r h = ground arith

  -- The old connections of a tick, and the kernel after they are deleted.
  abbrev pub old_of : Locals → Kernel b → GoMap TupleKey TupleData
  old_of l w = old_connections l.current_ticker_clock (b.connection.iterate w.connection_map).0 []

  abbrev pub without_old : Locals → Kernel b → Kernel b
  without_old l w = record w { connection_map = delete_connections b (old_of l w) w.connection_map }

  abbrev pub next_slot : Locals → ℕ
  next_slot l = uint64 (l.current_ticker_clock + 1) % 20

  -- What `getOldestStatsAndCleanup` does in the tick.
  abbrev pub reading : Locals → Kernel b → Kernel b × Outcome (GoMap ConnKey Stats)
  reading l w = get_oldest_stats_and_cleanup b (without_old l w) (next_slot l)

  module _ (env : Env) (l : Locals) (w : Kernel b) where
    pub tick_iterate_error :
        (e : Error)
        → (b.connection.iterate w.connection_map).1 ≡ some e
        → tick b env l w ≡ (l, w, err e)
    unfolding tick
    tick_iterate_error e p = rw (p, tick)

    module _ (p : (b.connection.iterate w.connection_map).1 ≡ none) where
      pub tick_read :
          (stats : GoMap ConnKey Stats)
          → (reading l w).1 ≡ ok stats
          → tick b env l w ≡ finish_tick b env l (reading l w).0 (old_of l w) stats
      unfolding tick
      tick_read stats q = rw (p, tick, q)

      pub tick_read_error :
          (e : Error) → (reading l w).1 ≡ err e → tick b env l w ≡ (l, (reading l w).0, err e)
      unfolding tick
      tick_read_error e q = rw (p, tick, q)

      pub tick_read_panic : (reading l w).1 ≡ panic → tick b env l w ≡ (l, (reading l w).0, panic)
      unfolding tick
      tick_read_panic q = rw (p, tick, q)

    -- What a tick that reports has done.
    pub record TickOk : Type 0 where
      pub complete : (b.connection.iterate w.connection_map).1 ≡ none
      pub stats : GoMap ConnKey Stats
      pub read : (reading l w).1 ≡ ok stats
      pub rest : tick b env l w ≡ finish_tick b env l (reading l w).0 (old_of l w) stats

    pub tick-TickOk : (r : Report) → (tick b env l w).2 ≡ ok r → TickOk
    tick-TickOk r h = by_reply (b.connection.iterate w.connection_map).1 refl (reading l w).1 refl
      where
        by_reply :
            (e : Option Error)
            → (b.connection.iterate w.connection_map).1 ≡ e
            → (o : Outcome (GoMap ConnKey Stats)) → (reading l w).1 ≡ o
            → TickOk
        by_reply (some e) p o q = absurd (cc (tick_iterate_error e p))
        by_reply none p (ok stats) q = record {
          complete = p;
          stats = stats;
          read = q;
          rest = tick_read p stats q;
        }
        by_reply none p (err e) q = absurd (cc (tick_read_error p e q))
        by_reply none p panic q = absurd (cc (tick_read_panic p q))
