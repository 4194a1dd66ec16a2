-- ===== src/Packet/Ring.antt =====
-- The ring of twenty slots of statistics, seen as a delay line, and runs of `TrackConnections` of
-- connectivity-exporter/packet/packet.go with the kernel's writes between its ticks.
pub mod Failures
pub mod Pops
pub mod Delivery
pub mod Start
pub mod Counted
pub mod Overlap
use connectivity_exporter.Prelude.{
  ℕ, zero, suc, ◌+◌, ◌%◌, ◌^◌, ◌<◌, ◌≡◌, ◌≢◌, List, [], ◌∷◌, ◌++◌, Option, none, some,
}
use connectivity_exporter.Prelude.Results.{Error, ok, err, found}
use connectivity_exporter.Packet.Ebpf.{Bpf, Kernel}
use connectivity_exporter.Packet.Tracker.{Env, Locals, Report, tick}

module _ (b : Bpf) where
  -- The slots hold maps of their own; `slots` says which.
  pub record IsRing (slots : ℕ → ℕ) (w : Kernel b) : Type 0 where
    pub each : (i : ℕ) → i < 20 → found (b.outer.lookup w.stats_map i) ≡ some (slots i)
    pub apart : (i j : ℕ) → i < 20 → j < 20 → i ≢ j → slots i ≢ slots j

  -- The delay line at a clock: the map that `i` ticks from now will read, for `i` below 20. The
  -- kernel writes at its end, at the slot of the clock.
  unfoldable pub line : (ℕ → ℕ) → Kernel b → ℕ → ℕ → b.inner.Map
  line slots w clock i = w.inner_maps (slots ((clock + 1 + i) % 20))

  -- What the kernel does between two ticks: connections come and go, and the map of the slot of
  -- the clock takes counts. The kernel's clock is that of the goroutine, as the `Put` of each tick has
  -- succeeded.
  pub record Writes (slots : ℕ → ℕ) (clock : ℕ) (w w' : Kernel b) : Type 0 where
    pub same_slots : w'.stats_map ≡ w.stats_map
    pub others : (j : ℕ) → slots (clock % 20) ≢ j → w'.inner_maps j ≡ w.inner_maps j

  -- A run, with the reports of its ticks: each tick is followed by writes, and either reports or
  -- logs an error.
  pub data Rounds (slots : ℕ → ℕ) (l : Locals) (w : Kernel b)
      : List Report → Locals → Kernel b → Type 0 where
    here : Rounds slots l w [] l w
    reporting :
        {rs : List Report} {l1 l2 : Locals} {w1 w2 w3 : Kernel b}
        → Rounds slots l w rs l1 w1
        → (env : Env) (r : Report) → tick b env l1 w1 ≡ (l2, w2, ok r)
        → Writes slots l2.current_ticker_clock w2 w3
        → Rounds slots l w (r ∷ rs) l2 w3
    failing :
        {rs : List Report} {l1 l2 : Locals} {w1 w2 w3 : Kernel b}
        → Rounds slots l w rs l1 w1
        → (env : Env) (e : Error) → tick b env l1 w1 ≡ (l2, w2, err e)
        → Writes slots l2.current_ticker_clock w2 w3
        → Rounds slots l w rs l2 w3
