-- ===== src/Packet/Ring/Counted.antt =====
-- The kernel's counts of a key in the ring of connectivity-exporter/packet/packet.go, over its
-- twenty slots.
pub mod Sums
pub mod Ticks
use connectivity_exporter.Prelude.{ℕ, zero, suc, ◌+◌, ◌%◌, ◌≡◌, ◌≢◌, ◌<◌, []}
use connectivity_exporter.Prelude.Results.{ok, err, panic}
use connectivity_exporter.Packet.Connection.{ConnKey, ConnKey-discrete}
use connectivity_exporter.Packet.Ebpf.{Bpf, Kernel, Stats}
use connectivity_exporter.Packet.Tracker.{collect_stats, get_or}
use connectivity_exporter.Packet.Ring.{line}

-- f 0 + … + f (n - 1)
unfoldable pub sum_below : ℕ → (ℕ → ℕ) → ℕ
sum_below zero f = 0
sum_below (suc n) f = sum_below n f + f n

module _ (b : Bpf) where
  -- The counts of a key in a slot, as a tick reads them there.
  unfoldable pub counts_in : b.inner.Map → ConnKey → Stats
  counts_in m k = elim (collect_stats (b.inner.iterate m).0 []) [
    | ok stats ↦ get_or ConnKey-discrete stats k (0, 0)
    | err e ↦ (0, 0)
    | panic ↦ (0, 0)
  ]

  -- One of the two counts of a key, over the whole ring.
  unfoldable pub counted : (ℕ → ℕ) → (Stats → ℕ) → Kernel b → ℕ → ConnKey → ℕ
  counted slots count w clock k = sum_below 20 (λ i. count (counts_in (line b slots w clock i) k))

  -- What the kernel writes between two ticks, with the connections of each key that it adds: in
  -- the slot of the clock that it has, which stays behind that of the goroutine when a `Put` of the
  -- ticker clock has failed.
  pub record Adds (slots : ℕ → ℕ) (added : ConnKey → Stats) (w w' : Kernel b) : Type 0 where
    pub same_slots : w'.stats_map ≡ w.stats_map
    pub slot : ℕ
    pub is_slot : slot < 20
    pub others : (j : ℕ) → slots slot ≢ j → w'.inner_maps j ≡ w.inner_maps j
    pub sums :
        (k : ConnKey)
        → counts_in (w'.inner_maps (slots slot)) k ≡ (
          (counts_in (w.inner_maps (slots slot)) k).0 + (added k).0,
          (counts_in (w.inner_maps (slots slot)) k).1 + (added k).1,
        )
