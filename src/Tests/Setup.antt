-- ===== src/Tests/Setup.antt =====
-- The setup of the maps, the sockets and the collections; a histogram of two CPUs; flags.
use connectivity_exporter.Prelude.{
  ◌+◌, ◌≡◌, refl, arith, true, ◌&&◌, [], ◌∷◌, none, some, length, if◌then◌else◌,
}
use connectivity_exporter.Prelude.Results.{value, external, ok}
use connectivity_exporter.Packet.Histogram.{ExecutionHistogram, read_snapshot_from_map}
use connectivity_exporter.Packet.Histogram.Sums.{Totals, read_snapshot_from_map-Totals}
use connectivity_exporter.Packet.Slots.{NewMap, init_stats_map, fill_slots}
use connectivity_exporter.Packet.Sockets.{
  Answers, descriptor, socket_count, attach_program_to_network_interface, close_sockets,
}
use connectivity_exporter.Packet.Sockets.Closing.{
  ArePositive, bound_from, opened_from, attach-close_sockets,
}
use connectivity_exporter.Packet.Setup.{Library, Steps, NetworkDataSource, new_network_data_source}
use connectivity_exporter.Packet.Setup.Leaks.{
  is_ok, is_collected, is_initialized, new_network_data_source_lem,
}
use connectivity_exporter.Packet.Flags.{flags_string, tcp_flags}
use connectivity_exporter.Packet.Flags.Letters.{read_flags, read_flags-flags_string}
use connectivity_exporter.Tests.Models.{bpf}

abbrev cpu : ExecutionHistogram
cpu = record { total = 700; buckets = 1 ∷ 2 ∷ [] }

read_snapshot_from_map-Totals_example :
    Totals (cpu ∷ cpu ∷ []) (length cpu.buckets) (read_snapshot_from_map (value (cpu ∷ cpu ∷ [])))
read_snapshot_from_map-Totals_example = read_snapshot_from_map-Totals cpu (cpu ∷ []) (refl, tt)

abbrev new_map : NewMap
new_map clock = value (clock + 100)

no_slots : bpf.outer.Map
no_slots = ([], tt)

slots_made : (init_stats_map bpf new_map no_slots).1 ≡ none
unfolding init_stats_map fill_slots no_slots
slots_made = refl

-- The kernel gives each interface a socket and refuses to bind each.
abbrev answers : Answers
answers = record { socket = λ index. value (index + 3); bind = λ index. some (external index) }

answers-ArePositive : ArePositive answers
answers-ArePositive index = ground arith

attach-close_sockets_example :
    ((attach_program_to_network_interface answers).1 ≡ opened_from answers socket_count 0)
    × ((close_sockets (attach_program_to_network_interface answers).0).1
        ≡ bound_from answers socket_count 0)
    × ((close_sockets (close_sockets (attach_program_to_network_interface answers).0).0).1 ≡ [])
attach-close_sockets_example = attach-close_sockets answers answers-ArePositive

abbrev pub lib : Library
lib = record {
  load_collection_spec = none;
  spec_has_stats = true;
  new_collection = none;
  has_map = λ name. true;
  has_program = true;
}

abbrev pub steps : Steps
steps = record {
  init_cidr_map = none;
  init_port_map = none;
  init_stats_map = none;
  attached = descriptor 5 ∷ descriptor 0 ∷ [];
}

abbrev failing : Steps
failing = record steps { init_port_map = some (external 1) }

new_network_data_source_lem_example :
    (is_ok (new_network_data_source lib failing 0).1
      ≡ (is_collected lib && (lib.has_program && is_initialized failing)))
    × ((new_network_data_source lib failing 0).0 ≡ (if is_collected lib then 0 + 1 else 0))
new_network_data_source_lem_example = new_network_data_source_lem lib failing 0

abbrev pub source : NetworkDataSource
source = record { attachment = some steps.attached; has_config = true }

source_made : (new_network_data_source lib steps 0).1 ≡ ok source
unfolding new_network_data_source
source_made = refl

read_flags-flags_string_example : read_flags (flags_string 18) tcp_flags ≡ 18
read_flags-flags_string_example = read_flags-flags_string 18 (omega arith)
