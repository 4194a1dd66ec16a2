-- ===== src/Exporter/StartUp.antt =====
-- connectivity-exporter/main.go: `main` before its goroutines run, and its `Close` at the end.
pub mod Ranges
pub mod Serves
use connectivity_exporter.Prelude.{ℕ, List, [], ◌∷◌, Option, none, some, ℕ_discrete}
use connectivity_exporter.Prelude.GoMap.{keys}
use connectivity_exporter.Prelude.GoString.{GoString}
use connectivity_exporter.Prelude.Results.{Error, Outcome, ok, err, panic}
use connectivity_exporter.Packet.Trie.{LpmTrie}
use connectivity_exporter.Packet.Ebpf.{BpfMap, Bpf}
use connectivity_exporter.Packet.Ports.{as_set}
use connectivity_exporter.Packet.Setup.{Library, NetworkDataSource, close}
use connectivity_exporter.Packet.Slots.{NewMap}
use connectivity_exporter.Packet.Sockets.{SocketFd}
use connectivity_exporter.Exporter.Setup.{Maps, Ended, set_up}

-- The command line: the values of `-r` and `-p`, and the arguments that belong to no flag.
pub record Flags : Type 0 where
  pub cidrs : GoString
  pub ports : GoString
  pub args : List GoString

-- Why `klog.Fatalf` ended the process, with no deferred call run.
pub data Fatal : Type 0 where
  additional_arguments : Fatal
  rlimit setup : Error → Fatal

-- What the system decides: the error of `Setrlimit`, and the orders in which the runtime ranges over
-- the two sets.
pub record Machine : Type 0 where
  pub setrlimit : Option Error
  pub cidr_order : List GoString → List GoString
  pub port_order : List GoString → List GoString

module _ (cidrs : LpmTrie) (ports : BpfMap ℕ ℕ ℕ_discrete) (b : Bpf) (lib : Library)
    (new_map : NewMap) (attached : List SocketFd) where
  -- How `main` gets to its goroutines, or where it ends.
  pub data Started : Type 0 where
    exits : Fatal → Started
    panics : Started
    serves : NetworkDataSource → Ended cidrs ports b lib new_map attached → Started

  abbrev pub cidr_items : Flags → Machine → List GoString
  cidr_items flags machine = machine.cidr_order (keys (as_set flags.cidrs))

  abbrev pub port_items : Flags → Machine → List GoString
  port_items flags machine = machine.port_order (keys (as_set flags.ports))

  -- `NewNetworkDataSource` has returned.
  abbrev pub from_result :
      Outcome NetworkDataSource → Ended cidrs ports b lib new_map attached → Started
  from_result panic x = panics
  from_result (err e) x = exits (setup e)
  from_result (ok s) x = serves s x

  unfoldable pub start_up : Flags → Machine → ℕ → Maps cidrs ports b lib new_map attached → Started
  start_up flags machine open_count m = elim flags.args [
    | arg ∷ args ↦ exits additional_arguments
    | [] ↦ elim machine.setrlimit [
      | some e ↦ exits (rlimit e)
      | none ↦
          elim (set_up cidrs ports b lib new_map attached (cidr_items flags machine)
            (port_items flags machine) open_count m) [
              | panic ↦ panics
              | err e ↦ exits (setup e)
              | ok x ↦ from_result x.result x
            ]
    ]
  ]
