-- ===== src/Packet/Ring/Start.antt =====
-- The ring after `initStatsMap` of connectivity-exporter/packet/bpf.go.
use connectivity_exporter.Prelude.{ℕ, ◌%◌, ◌<◌, ◌≡◌, ◌≢◌, sym, ap, ◌∙◌, subst, arith, none, some}
use connectivity_exporter.Prelude.Results.{value, found}
use connectivity_exporter.Packet.Ebpf.{Bpf, Kernel}
use connectivity_exporter.Packet.Slots.{NewMap, init_stats_map}
use connectivity_exporter.Packet.Slots.Filled.{init_stats_map-filled}
use connectivity_exporter.Packet.Ring.{IsRing}

value-injective : {a c : ℕ} → value a ≡ value c → a ≡ c
value-injective h = cc

-- When `initStatsMap` succeeds and each new map is one of its own, the kernel's slots are a ring.
pub init_stats_map-IsRing :
    (b : Bpf) (new_map : NewMap) (slots : ℕ → ℕ) (w : Kernel b)
    → (init_stats_map b new_map w.stats_map).1 ≡ none
    → ((i : ℕ) → i < 20 → new_map i ≡ value (slots i))
    → ((i j : ℕ) → i < 20 → j < 20 → i ≢ j → slots i ≢ slots j)
    → IsRing b slots (record w { stats_map = (init_stats_map b new_map w.stats_map).0 })
init_stats_map-IsRing b new_map slots w h made apart = record {
  each = λ i lt.
      let (fd, new, there) = init_stats_map-filled b new_map w.stats_map i h in
      let same : i % 20 ≡ i = omega arith in
      subst
        (λ k. found (b.outer.lookup (init_stats_map b new_map w.stats_map).0 k) ≡ some (slots i))
        same (there ∙ ap some (value-injective (sym new ∙ ap new_map same ∙ made i lt)));
  apart = apart;
}
