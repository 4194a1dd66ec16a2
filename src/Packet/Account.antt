-- ===== src/Packet/Account.antt =====
-- connectivity-exporter/packet/packet.go: `State`, `accountForConnections`, `deleteExpiredSNIs`.
pub mod Verdict
pub mod Expiry
use connectivity_exporter.Prelude.{
  ℕ, ◌+◌, Bool, true, false, ◌&&◌, ◌||◌, not, List, [], ◌∷◌, Option, none, some, ltb, ◌==◌,
  if◌then◌else◌, length,
}
use connectivity_exporter.Prelude.GoString.{GoString, GoString-discrete}
use connectivity_exporter.Prelude.GoMap.{GoMap, get, put, delete}
use connectivity_exporter.Prelude.Float64.{◌+f◌, of_uint64}
use connectivity_exporter.Metrics.Inc.{Inc, expiration}
use connectivity_exporter.Packet.Connection.{
  TupleData, ConnKey, syn_received, synack_received, sni_received, rst_sent_by_client,
  rst_sent_by_server,
}

-- The time recorded for each SNI, in nanoseconds.
pub record State : Type 0 where
  pub snis : GoMap GoString ℕ

abbrev pub new_state : State
new_state = record { snis = [] }

-- The loop over the stale connections: the increment so far and `activeFailedSecond`.
pub record Scan : Type 0 where
  pub inc : Inc
  pub failed_in_scan : Bool

unfoldable pub scan_connection : TupleData → Scan → Scan
scan_connection v s =
    let s1 =
      if v.state == syn_received || v.state == synack_received
      then record s { failed_in_scan = true }
      else s in
    let s2 =
      if v.state == sni_received
      then record s1 {
        inc = record s1.inc { successful_connections = s1.inc.successful_connections +f 1 };
      }
      else s1 in
    let s3 =
      if v.state == rst_sent_by_server
      then record s2 {
        inc = record s2.inc { rejected_connections = s2.inc.rejected_connections +f 1 };
        failed_in_scan = true;
      }
      else s2 in
    if v.state == rst_sent_by_client
    then record s3 {
      inc = record s3.inc {
        rejected_connections_by_client = s3.inc.rejected_connections_by_client +f 1;
      };
    }
    else s3

unfoldable pub scan_connections : List TupleData → Scan → Scan
scan_connections [] s = s
scan_connections (v ∷ vs) s = scan_connections vs (scan_connection v s)

-- `&metrics.Inc{SNI: …, SourceIP: …, DestIP: …}`
abbrev pub zero_inc : ConnKey → Inc
zero_inc k = record {
  active_seconds = 0;
  failed_seconds = 0;
  active_failed_seconds = 0;
  successful_connections = 0;
  rejected_connections = 0;
  rejected_connections_by_client = 0;
  sni = k.sni;
  source_ip = k.source_ip;
  dest_ip = k.dest_ip;
}

-- `x++` under a condition.
abbrev pub count_if : Bool → ℕ → ℕ
count_if b x = if b then x +f 1 else x

-- The body after the loop: the totals of the kernel, and the verdict on the second.
unfoldable pub judge : Bool → ℕ → ℕ → ℕ → Scan → Inc × Bool
judge previous_failed_second stale succeeded_connections failed_connections s =
    let active_second = ltb 0 stale || (ltb 0 succeeded_connections || ltb 0 failed_connections) in
    let active_failed_second = ltb 0 failed_connections || s.failed_in_scan in
    let failed_second = (previous_failed_second && not active_second) || active_failed_second in
    (
      record s.inc {
        successful_connections = s.inc.successful_connections +f of_uint64 succeeded_connections;
        rejected_connections = s.inc.rejected_connections +f of_uint64 failed_connections;
        active_failed_seconds = count_if active_failed_second s.inc.active_failed_seconds;
        active_seconds = count_if active_second s.inc.active_seconds;
        failed_seconds = count_if failed_second s.inc.failed_seconds;
      },
      failed_second,
    )

-- `if _, ok := s.snis[sni]; !ok { s.snis[sni] = time.Now() }`
unfoldable pub first_seen : GoString → ℕ → State → State
first_seen sni now s = elim (get GoString-discrete s.snis sni) [
  | none ↦ record { snis = put GoString-discrete s.snis sni now }
  | some t ↦ s
]

unfoldable pub account_for_connections :
    ℕ → State → ConnKey → Bool → List TupleData → ℕ → ℕ → State × Inc × Bool
unfolding judge first_seen
account_for_connections now s k previous_failed_second stale succeeded failed =
    let scanned = scan_connections stale (record { inc = zero_inc k; failed_in_scan = false }) in
    let (inc, failed_second) =
      judge previous_failed_second (length stale) succeeded failed scanned in
    (first_seen k.sni now s, inc, failed_second)

-- The loop of `deleteExpiredSNIs` over the map's entries: which SNIs expire.
unfoldable pub expired_snis : ℕ → GoMap GoString ℕ → List GoString
expired_snis now [] = []
expired_snis now ((name, last_update) ∷ m) =
    let rest = expired_snis now m in
    if ltb (last_update + expiration) now then name ∷ rest else rest

unfoldable pub delete_all : List GoString → GoMap GoString ℕ → GoMap GoString ℕ
delete_all [] m = m
delete_all (name ∷ names) m = delete_all names (delete GoString-discrete m name)

-- The new state, and the names handed to `metrics.DeleteMetrics`.
unfoldable pub delete_expired_snis : ℕ → State → State × List GoString
unfolding expired_snis delete_all
delete_expired_snis now s =
    let names = expired_snis now s.snis in (record { snis = delete_all names s.snis }, names)
