-- ===== src/Metrics/Inc.antt =====
-- connectivity-exporter/metrics/types.go: the increment of the counters, and the constants.
-- A float64 field holds a natural number.
use connectivity_exporter.Prelude.{ℕ, ◌*◌}
use connectivity_exporter.Prelude.GoString.{GoString}

pub record Inc : Type 0 where
  pub active_seconds : ℕ
  pub failed_seconds : ℕ
  pub active_failed_seconds : ℕ
  pub successful_connections : ℕ
  pub rejected_connections : ℕ
  pub rejected_connections_by_client : ℕ
  pub sni : GoString
  pub source_ip : GoString
  pub dest_ip : GoString

-- `time.Minute * 15`, in nanoseconds.
abbrev pub expiration : ℕ
expiration = 60 * 1_000_000_000 * 15
