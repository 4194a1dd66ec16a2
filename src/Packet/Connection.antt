-- ===== src/Packet/Connection.antt =====
-- connectivity-exporter/packet/bpf.go and packet.go: connection states, `tupleData`, `ConnKey`.
use connectivity_exporter.Prelude.{ℕ, ◌+◌, ◌%◌, ◌^◌, Bool, ltb}
use connectivity_exporter.Prelude.GoString.{GoString, GoString-discrete}

-- `connState`, a uint32: any other value may come from the kernel too.
abbrev pub ConnState : Type 0
ConnState = ℕ

abbrev pub syn_received : ConnState
syn_received = 0

abbrev pub synack_received : ConnState
synack_received = 1

abbrev pub sni_received : ConnState
sni_received = 2

abbrev pub rst_sent_by_client : ConnState
rst_sent_by_client = 3

abbrev pub rst_sent_by_server : ConnState
rst_sent_by_server = 4

abbrev pub fin_received : ConnState
fin_received = 5

pub record TupleData : Type 0 where
  pub state : ConnState
  pub source_ip : GoString
  pub dest_ip : GoString
  pub sni : GoString
  pub ticker_clock_first_packet : ℕ

pub record ConnKey : Type 0 where
  pub source_ip : GoString
  pub dest_ip : GoString
  pub sni : GoString

unfoldable pub ConnKey-discrete : Discrete ConnKey
unfolding GoString-discrete
ConnKey-discrete = hlevel GoString-discrete

-- STATS_SECONDS_COUNT of c/types.h
abbrev pub stats_seconds_count : ℕ
stats_seconds_count = 20

-- Arithmetic of uint64.
abbrev pub uint64 : ℕ → ℕ
uint64 n = n % 2 ^ 64

unfoldable pub is_connection_old : ℕ → ℕ → Bool
is_connection_old ticker_clock_first_packet current_ticker_clock =
    ltb (uint64 (stats_seconds_count + ticker_clock_first_packet)) current_ticker_clock
