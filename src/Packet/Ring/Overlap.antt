-- ===== src/Packet/Ring/Overlap.antt =====
-- A tick of connectivity-exporter/packet/packet.go while the kernel writes: between the iteration of
-- the connections, the iteration of the statistics, each deletion, and the `Put` of the clock.
pub mod Sequential
use connectivity_exporter.Prelude.{ℕ, ◌≡◌, List, [], ◌∷◌, none}
use connectivity_exporter.Prelude.GoMap.{GoMap, keys}
use connectivity_exporter.Prelude.GoString.{GoString}
use connectivity_exporter.Prelude.Results.{ok, value}
use connectivity_exporter.Packet.Connection.{ConnKey}
use connectivity_exporter.Packet.Ebpf.{Bpf, Kernel, Stats}
use connectivity_exporter.Packet.Tracker.{
  Env, Locals, Report, collect_stats, set_inner, finish_tick,
}
use connectivity_exporter.Packet.Tracker.Branches.{old_of, without_old, next_slot}
use connectivity_exporter.Packet.Ring.{Writes}

module _ (b : Bpf) (slots : ℕ → ℕ) where
  -- The deletions of the keys that were read from a map, with the kernel's writes between them.
  pub data Deleting (clock fd : ℕ) : List GoString → Kernel b → Kernel b → Type 0 where
    done : {w : Kernel b} → Deleting clock fd [] w w
    deletes :
        {k : GoString} {ks : List GoString} {w w' : Kernel b}
        → Deleting clock fd ks (set_inner b w fd (b.inner.delete (w.inner_maps fd) k)) w'
        → Deleting clock fd (k ∷ ks) w w'
    writes :
        {ks : List GoString} {w w1 w' : Kernel b}
        → Writes b slots clock w w1
        → Deleting clock fd ks w1 w'
        → Deleting clock fd ks w w'

  -- A tick that reports, from a state of the kernel to another. The kernel writes at the clock of
  -- before the tick up to the `Put`, where it takes the new one.
  pub record Overlapped (env : Env) (l : Locals) (w : Kernel b) (r : Report) (l' : Locals)
      (w' : Kernel b) : Type 0 where
    pub complete : (b.connection.iterate w.connection_map).1 ≡ none
    pub looked_up : Kernel b
    pub early : Writes b slots l.current_ticker_clock (without_old b l w) looked_up
    pub fd : ℕ
    pub is_slot : b.outer.lookup looked_up.stats_map (next_slot b l) ≡ value fd
    pub stats : GoMap ConnKey Stats
    pub collected : collect_stats (b.inner.iterate (looked_up.inner_maps fd)).0 [] ≡ ok stats
    pub ended : (b.inner.iterate (looked_up.inner_maps fd)).1 ≡ none
    pub cleaned : Kernel b
    pub deleting :
        Deleting l.current_ticker_clock fd
          (keys (b.inner.iterate (looked_up.inner_maps fd)).0)
          looked_up
          cleaned
    pub rest : finish_tick b env l cleaned (old_of b l w) stats ≡ (l', w', ok r)
