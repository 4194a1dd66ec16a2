-- ===== src/Tests/Startup.antt =====
-- A setup with one network and two ports.
use connectivity_exporter.Prelude.{ℕ, ◌≡◌, refl, arith, List, [], ◌∷◌, none, ℕ_discrete}
use mathlib.Core.List.Perm
use connectivity_exporter.Prelude.GoMap.{put, keys}
use connectivity_exporter.Exporter.StartUp.{Flags, Machine, Started, start_up}
use connectivity_exporter.Exporter.StartUp.Serves.{Serves, start_up-Serves}
use connectivity_exporter.Prelude.GoString.{GoString, GoString-discrete, bytes}
use connectivity_exporter.Prelude.Results.{ok}
use connectivity_exporter.Packet.Ebpf.{BpfMap}
use connectivity_exporter.Packet.Ports.{init_port_map, as_set, split, add_items}
use connectivity_exporter.Packet.Setup.{new_ebpf_config, new_network_data_source}
use connectivity_exporter.Packet.Slots.{init_stats_map, fill_slots}
use connectivity_exporter.Exporter.Setup.{Maps, Ended, after_ports, after_cidrs, set_up}
use connectivity_exporter.Tests.Models.{map_of}
use connectivity_exporter.Tests.Cidr as Cidr
use connectivity_exporter.Tests.Setup.{lib, steps, source}
use connectivity_exporter.Tests.Ring.{ring_bpf, new_map, slots, unset}

abbrev port_map : BpfMap ℕ ℕ ℕ_discrete
port_map = map_of ℕ_discrete

abbrev port_items : List GoString
port_items = bytes "443" ∷ bytes "80" ∷ []

abbrev maps : Maps Cidr.cidr_map port_map ring_bpf lib new_map steps.attached
maps = record { cidr_map = Cidr.no_prefix; port_map = ([], tt); kernel = unset }

end : Ended Cidr.cidr_map port_map ring_bpf lib new_map steps.attached
end =
    after_cidrs Cidr.cidr_map port_map ring_bpf lib new_map steps.attached port_items 0 none
      (record maps { cidr_map = (Cidr.cidr_map.put Cidr.no_prefix Cidr.ten 0).0 })

config_made : (new_ebpf_config lib 0).1 ≡ ok tt
unfolding new_ebpf_config
config_made = refl

set :
    set_up Cidr.cidr_map port_map ring_bpf lib new_map steps.attached Cidr.items port_items 0 maps
    ≡ ok end
unfolding set_up end
set = rw (set_up, config_made, Cidr.items_put) refl

set_ok : end.result ≡ ok source
unfolding end after_cidrs after_ports init_port_map init_stats_map fill_slots
    new_network_data_source
set_ok = refl

-- `main` with that network and those ports on its command line.
abbrev flags : Flags
flags = record { cidrs = bytes "10.255.19.17/12"; ports = bytes "443,80"; args = [] }

abbrev machine : Machine
machine = record { setrlimit = none; cidr_order = λ items. items; port_order = λ items. items }

cidr_keys : keys (as_set flags.cidrs) ≡ Cidr.items
unfolding as_set split add_items put GoString-discrete
cidr_keys = refl

port_keys : keys (as_set flags.ports) ≡ port_items
unfolding as_set split add_items put GoString-discrete
port_keys = refl

started :
    start_up Cidr.cidr_map port_map ring_bpf lib new_map steps.attached flags machine 0 maps
    ≡ Started.serves source end
unfolding start_up
started = rw (start_up, cidr_keys, port_keys, set, set_ok) refl

start_up-Serves_example :
    Serves Cidr.cidr_map port_map ring_bpf lib new_map steps.attached slots flags machine 0 maps
      source end
start_up-Serves_example =
    start_up-Serves Cidr.cidr_map port_map ring_bpf lib new_map steps.attached slots (λ i lt. refl)
      (λ i j hi hj ne e. ne (omega arith)) flags machine (λ items. Perm.refl items)
      (λ items. Perm.refl items) 0 maps source end started
