-- ===== src/Exporter.antt =====
-- How the parts work together, as connectivity-exporter/main.go connects them.
pub mod Incs
pub mod Setup
pub mod StartUp
pub mod Says
pub mod Totals
pub mod Counts
pub mod Execution
pub mod Conservation
use connectivity_exporter.Prelude.{List, [], ◌∷◌}
use connectivity_exporter.Metrics.Inc.{Inc}
use connectivity_exporter.Metrics.Loop.{Event, inc_received}

-- What `Apply` receives of the increments that `TrackConnections` sends in one tick.
abbrev pub received : List Inc → List Event
received [] = []
received (inc ∷ incs) = inc_received inc ∷ received incs
