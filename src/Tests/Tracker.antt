-- ===== src/Tests/Tracker.antt =====
-- One tick on a kernel with statistics, and one on a kernel with an old connection.
use mathlib.Core.List.Perm
use connectivity_exporter.Prelude.{
  ℕ, ◌%◌, ◌≡◌, refl, arith, true, [], ◌∷◌, ◌++◌, none, some, replicate, ℕ_discrete, All,
}
use connectivity_exporter.Prelude.GoMap.{GoMap, get, put, delete}
use connectivity_exporter.Prelude.GoString.{GoString, bytes, GoString-discrete}
use connectivity_exporter.Prelude.Results.{ok, panic, found}
use connectivity_exporter.Prelude.Float64.{◌+f◌, of_uint64, round}
use connectivity_exporter.Packet.Connection.{ConnKey, ConnKey-discrete, is_connection_old}
use connectivity_exporter.Packet.Account.{
  account_for_connections, delete_expired_snis, scan_connections,
}
use connectivity_exporter.Packet.Bytes.{CTupleData}
use connectivity_exporter.Packet.Bytes.Addresses.{conn_key_of_bytes}
use connectivity_exporter.Packet.Ebpf.{Kernel, TupleKey, TupleKey-discrete, Stats}
use connectivity_exporter.Packet.Tracker.{
  Env, Locals, Report, init_locals, tick, collect_stats, get_oldest_stats_and_cleanup,
  delete_connections, delete_stats, finish_tick, group_stale, add_old_keys, add_stats_keys,
  add_stale, no_connections, account_keys, account_key, old_connections,
}
use connectivity_exporter.Packet.Tracker.Branches.{reading}
use connectivity_exporter.Packet.Tracker.Stale.{tick-drop_old, any_old, tick_panics}
use connectivity_exporter.Packet.Tracker.Reports.{Ranges, TickReport, tick-TickReport}
use connectivity_exporter.Packet.Tracker.Entries.{Taken, get_oldest-Taken}
use connectivity_exporter.Packet.Tracker.Remembers.{IsWellFormed, Remembers, tick-Remembers}
use connectivity_exporter.Packet.Tracker.Carry.{NoCarry, IsPositive, tick-NoCarry}
use connectivity_exporter.Packet.Tracker.Progress.{HasAddresses, tick-reports}
use connectivity_exporter.Packet.Tracker.Branches.{next_slot}
use connectivity_exporter.Prelude.Results.{value}
use connectivity_exporter.Tests.Models.{bpf, get-none}

abbrev pub env : Env
env = record { order = λ ks. ks; now_at = λ k. 5; now_end = 6 }

pub env-Ranges : Ranges env
env-Ranges ks = Perm.refl ks

abbrev stats_key : GoString
stats_key = 10 ∷ 0 ∷ 0 ∷ 1 ∷ 10 ∷ 0 ∷ 0 ∷ 2 ∷ bytes "a" ++ 0 ∷ []

-- Two successes and a failure in the slot of the first tick.
abbrev pub kernel : Kernel bpf
kernel = record {
  connection_map = ([], tt);
  stats_map = ((1, 7) ∷ [], (get-none ℕ_discrete 1, tt));
  inner_maps = λ fd. ((stats_key, (2, 1)) ∷ [], (get-none GoString-discrete stats_key, tt));
  ticker_clock_map = ([], tt);
}

abbrev pub report : Report
report = record {
  incs =
      record {
        active_seconds = 1;
        failed_seconds = 1;
        active_failed_seconds = 1;
        successful_connections = 2;
        rejected_connections = 1;
        rejected_connections_by_client = 0;
        sni = bytes "a";
        source_ip = bytes "10.0.0.1";
        dest_ip = bytes "10.0.0.2";
      }
      ∷ [];
  deleted = [];
}

pub tick_reports : (tick bpf env init_locals kernel).2 ≡ ok report
unfolding tick old_connections get_oldest_stats_and_cleanup collect_stats conn_key_of_bytes get put
    delete finish_tick group_stale add_old_keys add_stats_keys add_stale no_connections account_keys
    account_key delete_connections delete_stats ℕ_discrete account_for_connections
    delete_expired_snis ConnKey-discrete ◌+f◌ scan_connections round of_uint64
tick_reports = refl

tick-TickReport_example :
    TickReport bpf env init_locals (tick bpf env init_locals kernel).0 kernel report
tick-TickReport_example = tick-TickReport bpf env init_locals kernel report env-Ranges tick_reports

abbrev first_stats : GoMap ConnKey Stats
first_stats =
    (record { source_ip = bytes "10.0.0.1"; dest_ip = bytes "10.0.0.2"; sni = bytes "a" }, (2, 1))
    ∷ []

first_read : (get_oldest_stats_and_cleanup bpf kernel 1).1 ≡ ok first_stats
unfolding get_oldest_stats_and_cleanup collect_stats conn_key_of_bytes get put ℕ_discrete
first_read = refl

get_oldest-Taken_example :
    Taken bpf kernel (get_oldest_stats_and_cleanup bpf kernel 1).0 1 first_stats
get_oldest-Taken_example = get_oldest-Taken bpf kernel 1 first_stats first_read

init_locals-IsWellFormed : IsWellFormed init_locals
init_locals-IsWellFormed = record { snis = tt; previous = tt }

tick-Remembers_example :
    Remembers bpf env init_locals (tick bpf env init_locals kernel).0 kernel report
tick-Remembers_example =
    tick-Remembers bpf env init_locals kernel report env-Ranges init_locals-IsWellFormed
      tick_reports

counts-IsPositive :
    (fd : ℕ)
    → found (
        bpf.outer.lookup kernel.stats_map
          ((tick bpf env init_locals kernel).0.current_ticker_clock % 20))
      ≡ some fd
    → All (λ e. IsPositive e.1) (bpf.inner.iterate (kernel.inner_maps fd)).0
counts-IsPositive fd h = (omega arith, tt)

tick-NoCarry_example : All NoCarry report.incs
tick-NoCarry_example =
    tick-NoCarry bpf env init_locals kernel report env-Ranges counts-IsPositive tick_reports

-- Twenty-one ticks later, with a connection whose first packet came at tick 0.
abbrev late_locals : Locals
late_locals = record init_locals { current_ticker_clock = 21 }

abbrev tuple_key : TupleKey
tuple_key = record {
  source_ip = 16_777_226;
  dest_ip = 33_554_442;
  source_port = 80;
  dest_port = 443;
}

abbrev old_connection : CTupleData
old_connection = record {
  state = 1;
  i = replicate 136 0;
  num_packets = 2;
  total_data_bytes = 100;
  ticker_clock_first_packet = 0;
}

abbrev late_kernel : Kernel bpf
late_kernel = record kernel {
  connection_map = ((tuple_key, old_connection) ∷ [], (get-none TupleKey-discrete tuple_key, tt));
  stats_map = ((2, 7) ∷ [], (get-none ℕ_discrete 2, tt));
}

tick-drop_old_example :
    found (bpf.connection.lookup (tick bpf env late_locals late_kernel).1.connection_map tuple_key)
    ≡ none
unfolding get is_connection_old TupleKey-discrete ℕ_discrete
tick-drop_old_example = tick-drop_old bpf env late_locals late_kernel tuple_key refl

abbrev late_stats : GoMap ConnKey Stats
late_stats =
    (record { source_ip = bytes "10.0.0.1"; dest_ip = bytes "10.0.0.2"; sni = bytes "a" }, (2, 1))
    ∷ []

late_reading : (reading bpf late_locals late_kernel).1 ≡ ok late_stats
unfolding old_connections get_oldest_stats_and_cleanup collect_stats conn_key_of_bytes get put
    delete delete_connections delete_stats ℕ_discrete
late_reading = refl

is_late :
    any_old late_locals.current_ticker_clock (bpf.connection.iterate late_kernel.connection_map).0
    ≡ true
unfolding is_connection_old
is_late = refl

tick_panics_example : (tick bpf env late_locals late_kernel).2 ≡ panic
tick_panics_example =
    tick_panics bpf env late_locals late_kernel late_stats refl is_late late_reading

slot_found : bpf.outer.lookup kernel.stats_map (next_slot bpf init_locals) ≡ value 7
unfolding get ℕ_discrete
slot_found = refl

has_addresses : All (λ e. HasAddresses e.0) (bpf.inner.iterate (kernel.inner_maps 7)).0
has_addresses = (omega arith, tt)

tick-reports_example : (r : Report) × ((tick bpf env init_locals kernel).2 ≡ ok r)
tick-reports_example =
    tick-reports bpf env init_locals kernel 7 slot_found refl refl refl has_addresses
