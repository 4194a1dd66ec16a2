-- ===== src/Packet/Setup.antt =====
-- connectivity-exporter/packet/bpf.go and packet.go: `newEBPFConfig`, `setupMaps`,
-- `NewNetworkDataSource` and `Close`, with the collections that are open.
pub mod Leaks
use connectivity_exporter.Prelude.{
  ℕ, ◌+◌, ◌-◌, Bool, true, false, List, [], ◌∷◌, Option, none, some, if◌then◌else◌,
}
use connectivity_exporter.Prelude.GoString.{GoString, bytes}
use connectivity_exporter.Prelude.Results.{
  Error, Outcome, ok, err, panic, Reply, value, failure, loading_asset, creating_collection, no_map,
  no_program, init_cidr, init_port, init_stats,
}
use connectivity_exporter.Packet.Sockets.{SocketFd, close_sockets}

-- The maps of `setupMaps`, in its order.
abbrev pub map_names : List GoString
map_names =
    bytes "config_cidrs"
    ∷ bytes "config_ports"
    ∷ bytes "connections"
    ∷ bytes "histogram"
    ∷ bytes "test_hook"
    ∷ bytes "ticker_clock"
    ∷ bytes "stats"
    ∷ []

-- What the eBPF library answers: whether the asset loads, and what the new collection has in it.
pub record Library : Type 0 where
  pub load_collection_spec : Option Error
  -- the spec has a map named stats: the code writes to it
  pub spec_has_stats : Bool
  pub new_collection : Option Error
  pub has_map : GoString → Bool
  pub has_program : Bool

-- The errors of `initCIDRMap`, `initPortMap` and `initStatsMap`, and the sockets attached.
pub record Steps : Type 0 where
  pub init_cidr_map : Option Error
  pub init_port_map : Option Error
  pub init_stats_map : Option Error
  pub attached : List SocketFd

unfoldable pub setup_maps : Library → ℕ → List GoString → Option Error
setup_maps lib i [] = none
setup_maps lib i (name ∷ names) =
    let rest = setup_maps lib (i + 1) names in if lib.has_map name then rest else some (no_map i)

-- How many collections are open after the call, and its error. `Close` runs on the way out if the
-- variable `err` is set: it is not set when the program is missing. A spec with no map named stats
-- has a nil pointer for it.
unfoldable pub new_ebpf_config : Library → ℕ → ℕ × Outcome (Unit {0})
unfolding setup_maps
new_ebpf_config lib open_count = elim lib.load_collection_spec [
  | some e ↦ (open_count, err (loading_asset e))
  | none ↦
      if lib.spec_has_stats
      then elim lib.new_collection [
        | some e ↦ (open_count, err (creating_collection e))
        | none ↦ elim (setup_maps lib 0 map_names) [
          | some e ↦ (open_count + 1 - 1, err e)
          | none ↦
              if lib.has_program then (open_count + 1, ok tt) else (open_count + 1, err no_program)
        ]
      ]
      else (open_count, panic)
]

-- `NetworkDataSource`: its attachment and its collection, until they are closed.
pub record NetworkDataSource : Type 0 where
  pub attachment : Option (List SocketFd)
  pub has_config : Bool

-- The errors of the steps after `newEBPFConfig` are variables of their own `if`, so that the
-- deferred `Close` does not see them.
unfoldable pub new_network_data_source : Library → Steps → ℕ → ℕ × Outcome NetworkDataSource
unfolding new_ebpf_config
new_network_data_source lib steps open_count =
    let (opened, e) = new_ebpf_config lib open_count in
    elim e [
      | panic ↦ (opened, panic)
      | err x ↦ (opened, err x)
      | ok u ↦ elim steps.init_cidr_map [
        | some x ↦ (opened, err (init_cidr x))
        | none ↦ elim steps.init_port_map [
          | some x ↦ (opened, err (init_port x))
          | none ↦ elim steps.init_stats_map [
            | some x ↦ (opened, err (init_stats x))
            | none ↦ (opened, ok (record { attachment = some steps.attached; has_config = true }))
          ]
        ]
      ]
    ]

-- `Close`: the source after it, the collections open, and the descriptors closed.
unfoldable pub close : NetworkDataSource → ℕ → NetworkDataSource × ℕ × List ℕ
close s open_count = (
  record { attachment = none; has_config = false },
  if s.has_config then open_count - 1 else open_count,
  elim s.attachment [ none ↦ [] | some fds ↦ (close_sockets fds).1 ],
)
