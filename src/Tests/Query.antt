-- ===== src/Tests/Query.antt =====
-- A ring with counts of two names in the slot of clock 1.
use connectivity_exporter.Prelude.{List, [], ◌∷◌, ◌++◌, Option, none, some, replicate, ℕ_discrete}
use connectivity_exporter.Prelude.GoString.{GoString, bytes, GoString-discrete}
use connectivity_exporter.Packet.Ebpf.{Kernel}
use connectivity_exporter.Packet.Query.{Named}
use connectivity_exporter.Tests.Models.{bpf, get-none}

abbrev stats_key : GoString
stats_key = 10 ∷ 0 ∷ 0 ∷ 1 ∷ 10 ∷ 0 ∷ 0 ∷ 2 ∷ bytes "a" ++ 0 ∷ []

abbrev kernel : Kernel bpf
kernel = record {
  connection_map = ([], tt);
  stats_map = ((1, 7) ∷ [], (get-none ℕ_discrete 1, tt));
  inner_maps = λ fd. ((stats_key, (2, 1)) ∷ [], (get-none GoString-discrete stats_key, tt));
  ticker_clock_map = ([], tt);
}

abbrev named : Named
named = (bytes "a", (2, 1)) ∷ []

abbrev stats : List (Option Named)
stats = none ∷ some named ∷ replicate 18 none
