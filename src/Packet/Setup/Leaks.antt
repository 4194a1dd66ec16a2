-- ===== src/Packet/Setup/Leaks.antt =====
-- The collections open after `NewNetworkDataSource` and `Close` of packet/packet.go.
use connectivity_exporter.Prelude.{
  ℕ, ◌+◌, ◌≡◌, refl, arith, Bool, true, false, ◌&&◌, List, [], ◌∷◌, Option, none, some,
  if◌then◌else◌,
}
use connectivity_exporter.Prelude.GoString.{GoString}
use connectivity_exporter.Prelude.Results.{Error, Outcome, ok}
use connectivity_exporter.Packet.Sockets.{close_sockets}
use connectivity_exporter.Packet.Setup.{
  Library, Steps, map_names, setup_maps, NetworkDataSource, new_network_data_source, close,
}

abbrev pub is_none : Option Error → Bool
is_none none = true
is_none (some e) = false

-- The library gave a spec with the statistics map, and a collection with each of the maps.
abbrev pub all_found : Library → List GoString → Bool
all_found lib [] = true
all_found lib (name ∷ names) = lib.has_map name && all_found lib names

abbrev pub is_collected : Library → Bool
is_collected lib =
    is_none lib.load_collection_spec
    && (lib.spec_has_stats && (is_none lib.new_collection && all_found lib map_names))

-- Each of the steps succeeded.
abbrev pub is_initialized : Steps → Bool
is_initialized s = is_none s.init_cidr_map && (is_none s.init_port_map && is_none s.init_stats_map)

abbrev pub is_ok : Outcome NetworkDataSource → Bool
is_ok (ok s) = true
is_ok _ = false

setup_maps_lem :
    (lib : Library) (i : ℕ) (names : List GoString)
    → is_none (setup_maps lib i names) ≡ all_found lib names
unfolding setup_maps
setup_maps_lem lib i [] = refl
setup_maps_lem lib i (name ∷ names) = ground (arith, setup_maps_lem lib (i + 1) names)

-- NewNetworkDataSource succeeds exactly if the spec has the statistics map, the collection and its
-- maps are made, the program is there and each initialisation succeeds; the collection is open
-- after the call exactly if it was made with its maps, also when the call fails.
pub new_network_data_source_lem :
    (lib : Library) (steps : Steps) (n : ℕ)
    → (is_ok (new_network_data_source lib steps n).1
        ≡ (is_collected lib && (lib.has_program && is_initialized steps)))
      × ((new_network_data_source lib steps n).0 ≡ (if is_collected lib then n + 1 else n))
unfolding new_network_data_source
new_network_data_source_lem lib steps n = ground (arith, setup_maps_lem lib 0 map_names)

-- `Close` after a setup that succeeded closes the collection and the attached sockets; a second
-- `Close` closes nothing.
pub close-new_network_data_source :
    (lib : Library) (steps : Steps) (n : ℕ) (s : NetworkDataSource)
    → (new_network_data_source lib steps n).1 ≡ ok s
    → ((close s (new_network_data_source lib steps n).0).1 ≡ n)
      × ((close s (new_network_data_source lib steps n).0).2 ≡ (close_sockets steps.attached).1)
      × (close (close s (new_network_data_source lib steps n).0).0 n
          ≡ ((close s (new_network_data_source lib steps n).0).0, n, []))
unfolding new_network_data_source close
close-new_network_data_source lib steps n s h = ground arith
