-- ===== src/Tests/Packet.antt =====
-- One key with a stale connection in each of two states, and the expiry of an SNI.
use connectivity_exporter.Prelude.{ℕ, ◌≡◌, refl, arith, true, false, List, [], ◌∷◌, none, some}
use connectivity_exporter.Prelude.GoMap.{get, IsMap}
use connectivity_exporter.Prelude.GoString.{bytes, GoString-discrete, list_discrete}
use connectivity_exporter.Packet.Connection.{ConnKey, TupleData, rst_sent_by_server, sni_received}
use connectivity_exporter.Packet.Account.{State, account_for_connections, delete_expired_snis}
use connectivity_exporter.Packet.Account.Verdict.{Verdict, account_for_connections-Verdict}
use connectivity_exporter.Packet.Account.Expiry.{contains, Call, account_all, busy_sni_expires}
use connectivity_exporter.Tests.Models.{get-none}

abbrev key : ConnKey
key = record { source_ip = bytes "10.0.0.1"; dest_ip = bytes "10.0.0.2"; sni = bytes "a" }

abbrev in_conn_state : ℕ → TupleData
in_conn_state s = record {
  state = s;
  source_ip = [];
  dest_ip = [];
  sni = bytes "a";
  ticker_clock_first_packet = 3;
}

abbrev stale : List TupleData
stale = in_conn_state rst_sent_by_server ∷ in_conn_state sni_received ∷ []

abbrev seen : State
seen = record { snis = (bytes "a", 100) ∷ [] }

account_for_connections-Verdict_example :
    Verdict key true stale 2 1
      (account_for_connections 5 seen key true stale 2 1).1
      (account_for_connections 5 seen key true stale 2 1).2
account_for_connections-Verdict_example =
    account_for_connections-Verdict 5 seen key true stale 2 1 (omega arith)

seen-IsMap : IsMap GoString-discrete seen.snis
seen-IsMap = (get-none GoString-discrete (bytes "a"), tt)

-- A minute past the fifteen.
abbrev late : ℕ
late = 960_000_000_100

seen_at : get GoString-discrete seen.snis (bytes "a") ≡ some 100
unfolding get GoString-discrete list_discrete
seen_at = refl

abbrev calls : List Call
calls =
    record {
      now = 900_000_000_000;
      key = key;
      previous = false;
      stale = stale;
      succeeded = 2;
      failed = 1;
    }
    ∷ []

busy_sni_expires_example :
    (get GoString-discrete (delete_expired_snis late (account_all calls seen)).0.snis (bytes "a")
      ≡ none)
    × (contains (delete_expired_snis late (account_all calls seen)).1 (bytes "a") ≡ true)
busy_sni_expires_example =
    busy_sni_expires calls (bytes "a") 100 late seen seen-IsMap seen_at (omega arith)
