-- ===== src/Packet/Slots.antt =====
-- connectivity-exporter/packet/bpf.go: `initStatsMap`, a new inner map for each slot of the ring, and
-- `initTestHookMap`.
pub mod Filled
use connectivity_exporter.Prelude.{ℕ, zero, suc, ◌+◌, ◌-◌, Option, none, some}
use connectivity_exporter.Prelude.Results.{Error, Reply, value, failure}
use connectivity_exporter.Packet.Connection.{stats_seconds_count}
use connectivity_exporter.Packet.Ebpf.{BpfArray, Bpf, Kernel}

-- What the kernel answers to `ebpf.NewMap` for a slot: the identity of a new map, or an error.
abbrev pub NewMap : Type 0
NewMap = ℕ → Reply ℕ

module _ (b : Bpf) where
  -- The loop from `clock`, with `left` slots to fill.
  unfoldable pub fill_slots : NewMap → ℕ → ℕ → b.outer.Map → b.outer.Map × Option Error
  fill_slots new_map zero clock m = (m, none)
  fill_slots new_map (suc left) clock m = elim (new_map clock) [
    | failure e ↦ (m, some e)
    | value fd ↦
        let (m1, e) = b.outer.put m clock fd in
        elim e [ some x ↦ (m1, some x) | none ↦ fill_slots new_map left (clock + 1) m1 ]
  ]

  unfoldable pub init_stats_map : NewMap → b.outer.Map → b.outer.Map × Option Error
  unfolding fill_slots
  init_stats_map new_map m = fill_slots new_map stats_seconds_count 0 m

-- The value of the key 0, for the program's tests.
unfoldable init_test_hook_map : (hook : BpfArray ℕ) → hook.Map → ℕ → hook.Map × Option Error
init_test_hook_map hook m i = hook.put m 0 i
