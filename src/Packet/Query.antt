-- ===== src/Packet/Query.antt =====
-- connectivity-exporter/packet/bpf.go: `getStats`.
pub mod Found
pub mod Names
use connectivity_exporter.Prelude.{
  ℕ, zero, suc, ◌+◌, List, [], ◌∷◌, Option, none, some, leb, if◌then◌else◌, length, replicate,
}
use connectivity_exporter.Prelude.GoString.{GoString, GoString-discrete}
use connectivity_exporter.Prelude.GoMap.{GoMap, put}
use connectivity_exporter.Prelude.Results.{Error, Outcome, ok, err, panic, ◌>>=◌, too_many_entries}
use connectivity_exporter.Packet.Connection.{stats_seconds_count}
use connectivity_exporter.Packet.Bytes.{slice, before_zero}
use connectivity_exporter.Packet.Ebpf.{Bpf, Kernel, Stats}
use connectivity_exporter.Packet.Tracker.{check}

-- The counts by name of one clock; a nil map is `none`.
abbrev pub Named : Type 0
Named = GoMap GoString Stats

-- `out[k] = v`, within bounds.
abbrev pub set_named : List (Option Named) → ℕ → Option Named → List (Option Named)
set_named [] k v = []
set_named (o ∷ out) zero v = v ∷ out
set_named (o ∷ out) (suc k) v = o ∷ set_named out k v

-- The loop over the entries of an inner map; `innerKey[8:]` panics on a shorter key.
unfoldable pub collect_names : List (GoString × Stats) → Named → Outcome Named
unfolding slice before_zero
collect_names [] named = ok named
collect_names ((inner_key, v) ∷ entries) named = do
  name ← slice inner_key 8 (length inner_key)
  collect_names entries (put GoString-discrete named (before_zero name) v)

module _ (b : Bpf) (w : Kernel b) where
  -- The map of one clock, by the identity of its inner map.
  unfoldable pub named_of : ℕ → Outcome Named
  unfolding collect_names
  named_of fd = do
    named ← collect_names (b.inner.iterate (w.inner_maps fd)).0 []
    check (b.inner.iterate (w.inner_maps fd)).1 named

  -- The loop over the entries of the outer map.
  unfoldable pub collect_clocks : List (ℕ × ℕ) → List (Option Named) → Outcome (List (Option Named))
  unfolding named_of
  collect_clocks [] out = ok out
  collect_clocks ((outer_key, fd) ∷ entries) out =
      if leb (length out) outer_key
      then err too_many_entries
      else named_of fd >>= λ named. collect_clocks entries (set_named out outer_key (some named))

  unfoldable pub get_stats : Outcome (List (Option Named))
  unfolding collect_clocks
  get_stats = do
    out ← collect_clocks (b.outer.iterate w.stats_map).0 (replicate stats_seconds_count none)
    check (b.outer.iterate w.stats_map).1 out
