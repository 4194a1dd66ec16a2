-- ===== src/Packet/Account/Verdict.antt =====
-- What `accountForConnections` counts, and when a second is active or failed.
use connectivity_exporter.Prelude.{
  ℕ, suc, ◌+◌, ◌^◌, ◌≤◌, ◌<◌, ◌≡◌, arith, Bool, true, false, ◌&&◌, ◌||◌, not, List, [], ◌∷◌, ltb,
  ◌==◌, if◌then◌else◌, length,
}
use connectivity_exporter.Prelude.Float64.{+f_exact, of_uint64, of_uint64_exact}
use connectivity_exporter.Metrics.Inc.{Inc}
use connectivity_exporter.Packet.Connection.{
  TupleData, ConnKey, ConnState, syn_received, synack_received, sni_received, rst_sent_by_client,
  rst_sent_by_server,
}
use connectivity_exporter.Packet.Account.{
  State, Scan, scan_connection, scan_connections, zero_inc, judge, account_for_connections,
}

-- How many of the connections are in the state `s`.
abbrev pub in_state : ConnState → List TupleData → ℕ
in_state s [] = 0
in_state s (v ∷ vs) = (if v.state == s then 1 else 0) + in_state s vs

-- A connection that never got past the handshake, or that the server reset.
abbrev pub fails : TupleData → Bool
fails v = v.state == syn_received || (v.state == synack_received || v.state == rst_sent_by_server)

abbrev pub any_fails : List TupleData → Bool
any_fails [] = false
any_fails (v ∷ vs) = fails v || any_fails vs

in_state-le : (s : ConnState) (vs : List TupleData) → in_state s vs ≤ length vs
in_state-le s [] = omega arith
in_state-le s (v ∷ vs) = ground (arith, in_state-le s vs)

-- The scan adds the counts of the three states to an increment, and nothing else.
record Scanned (vs : List TupleData) (s t : Scan) : Type 0 where
  successes : t.inc.successful_connections ≡ s.inc.successful_connections + in_state sni_received vs
  rejections :
      t.inc.rejected_connections ≡ s.inc.rejected_connections + in_state rst_sent_by_server vs
  client_rejections :
      t.inc.rejected_connections_by_client
      ≡ s.inc.rejected_connections_by_client + in_state rst_sent_by_client vs
  failing : t.failed_in_scan ≡ (s.failed_in_scan || any_fails vs)
  no_active : t.inc.active_seconds ≡ s.inc.active_seconds
  no_failed : t.inc.failed_seconds ≡ s.inc.failed_seconds
  no_active_failed : t.inc.active_failed_seconds ≡ s.inc.active_failed_seconds
  same_sni : t.inc.sni ≡ s.inc.sni
  same_source : t.inc.source_ip ≡ s.inc.source_ip
  same_dest : t.inc.dest_ip ≡ s.inc.dest_ip

-- Room for `n` more exact increments in each of the three counts.
abbrev Room : ℕ → Scan → Type 0
Room n s =
    (s.inc.successful_connections + n < 2 ^ 53)
    × (s.inc.rejected_connections + n < 2 ^ 53)
    × (s.inc.rejected_connections_by_client + n < 2 ^ 53)

scan_connection_lem :
    (v : TupleData) (s : Scan) → Room 1 s → Scanned (v ∷ []) s (scan_connection v s)
unfolding scan_connection
scan_connection_lem v s room = ground (
  arith,
  +f_exact s.inc.successful_connections 1,
  +f_exact s.inc.rejected_connections 1,
  +f_exact s.inc.rejected_connections_by_client 1,
)

Scanned-cons :
    (v : TupleData) (vs : List TupleData) {s t u : Scan}
    → Scanned (v ∷ []) s t
    → Scanned vs t u
    → Scanned (v ∷ vs) s u
Scanned-cons v vs one more = ground arith

Scanned-Room :
    (v : TupleData) (n : ℕ) {s t : Scan} → Scanned (v ∷ []) s t → Room (suc n) s → Room n t
Scanned-Room v n one room = ground arith

scan_connections_lem :
    (vs : List TupleData) (s : Scan) → Room (length vs) s → Scanned vs s (scan_connections vs s)
unfolding scan_connections
scan_connections_lem [] s room = ground arith
scan_connections_lem (v ∷ vs) s room =
    let one = scan_connection_lem v s (omega arith) in
    Scanned-cons v vs one
      (scan_connections_lem vs (scan_connection v s) (Scanned-Room v (length vs) one room))

-- What a call of `accountForConnections` reports, written independently of its loop.
pub record Verdict (k : ConnKey) (previous : Bool) (stale : List TupleData) (succeeded failed : ℕ)
    (inc : Inc) (failed_second : Bool) : Type 0 where
  pub successes : inc.successful_connections ≡ in_state sni_received stale + succeeded
  pub rejections : inc.rejected_connections ≡ in_state rst_sent_by_server stale + failed
  pub client_rejections : inc.rejected_connections_by_client ≡ in_state rst_sent_by_client stale
  pub active : inc.active_seconds ≡ (if ltb 0 (length stale + succeeded + failed) then 1 else 0)
  pub active_failed : inc.active_failed_seconds ≡ (if ltb 0 failed || any_fails stale then 1 else 0)
  -- A failure now, or one that is carried through an inactive second.
  pub verdict : failed_second ≡ (
      ltb 0 failed
      || any_fails stale
      || previous && not (ltb 0 (length stale + succeeded + failed)))
  pub failed_seconds : inc.failed_seconds ≡ (if failed_second then 1 else 0)
  pub same_sni : inc.sni ≡ k.sni
  pub same_source : inc.source_ip ≡ k.source_ip
  pub same_dest : inc.dest_ip ≡ k.dest_ip

any_fails-length : (vs : List TupleData) → any_fails vs ≡ true → 0 < length vs
any_fails-length [] h = cc
any_fails-length (v ∷ vs) h = omega arith

-- Each of the three seconds is counted at most once, and in order.
abbrev pub Ordered : Inc → Type 0
Ordered inc =
    (inc.active_failed_seconds ≤ inc.active_seconds)
    × (inc.active_failed_seconds ≤ inc.failed_seconds)
    × (inc.active_seconds ≡ 1 → inc.failed_seconds ≡ inc.active_failed_seconds)
    × (inc.active_seconds ≤ 1)
    × (inc.failed_seconds ≤ 1)

Verdict-Ordered :
    {k : ConnKey} {previous : Bool} {stale : List TupleData} {succeeded failed : ℕ} {inc : Inc}
    {failed_second : Bool}
    → Verdict k previous stale succeeded failed inc failed_second
    → Ordered inc
Verdict-Ordered {stale} v = ground (arith, any_fails-length stale)

judge-Verdict :
    (k : ConnKey) (previous : Bool) (stale : List TupleData) (succeeded failed : ℕ) (s : Scan)
    → length stale + succeeded + failed < 2 ^ 53
    → Scanned stale (record { inc = zero_inc k; failed_in_scan = false }) s
    → Verdict k previous stale succeeded failed
        (judge previous (length stale) succeeded failed s).0
        (judge previous (length stale) succeeded failed s).1
unfolding judge
judge-Verdict k previous stale succeeded failed s room scanned = ground (
  arith,
  in_state-le sni_received stale,
  in_state-le rst_sent_by_server stale,
  +f_exact s.inc.successful_connections (of_uint64 succeeded),
  +f_exact s.inc.rejected_connections (of_uint64 failed),
  of_uint64_exact succeeded,
  of_uint64_exact failed,
  +f_exact 0 1,
)

-- With fewer than 2 ^ 53 connections in the call, the counts are exact: stale connections in
-- SNI_RECEIVED plus the kernel's successes, those reset by the server plus the kernel's failures,
-- those reset by the client; the second is active exactly if there was any of them or any stale
-- connection, active-failed exactly if the kernel saw a failure or some stale connection is in
-- SYN_RECEIVED, SYNACK_RECEIVED or RST_SENT_BY_SERVER, and failed exactly if it is active-failed
-- or it is inactive and the previous one failed. The increment carries the key's labels.
pub account_for_connections-Verdict :
    (now : ℕ) (s : State) (k : ConnKey) (previous : Bool) (stale : List TupleData)
    (succeeded failed : ℕ)
    → length stale + succeeded + failed < 2 ^ 53
    → Verdict k previous stale succeeded failed
        (account_for_connections now s k previous stale succeeded failed).1
        (account_for_connections now s k previous stale succeeded failed).2
unfolding account_for_connections
account_for_connections-Verdict now s k previous stale succeeded failed room =
    judge-Verdict k previous stale succeeded failed _ room
      (scan_connections_lem stale _ (omega arith))

-- With fewer than 2 ^ 53 connections in the call, an active-failed second is active and failed, an
-- active second is failed only if it is active-failed, and each of the three is counted at most
-- once.
pub seconds-Ordered :
    (now : ℕ) (s : State) (k : ConnKey) (previous : Bool) (stale : List TupleData)
    (succeeded failed : ℕ)
    → length stale + succeeded + failed < 2 ^ 53
    → Ordered (account_for_connections now s k previous stale succeeded failed).1
seconds-Ordered now s k previous stale succeeded failed room =
    Verdict-Ordered (account_for_connections-Verdict now s k previous stale succeeded failed room)
