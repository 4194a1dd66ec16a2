-- ===== src/Packet/Access/Stored.antt =====
-- What a connection reads back as.
use connectivity_exporter.Prelude.{
  ◌≤◌, ◌≡◌, refl, sym, ap, ◌∙◌, arith, ite, Bool, true, false, Option, none, some, ltb,
  if◌then◌else◌, length,
}
use connectivity_exporter.Prelude.GoString.{GoString, GoString-discrete}
use connectivity_exporter.Prelude.Results.{
  Error, Outcome, ok, >>=-eq-ok, ok-injective, Reply, value, failure, found, sni_too_long,
}
use connectivity_exporter.Packet.Connection.{TupleData}
use connectivity_exporter.Packet.Bytes.{CTupleData, tls_max_server_name_len}
use connectivity_exporter.Packet.Ebpf.{BpfMap}
use connectivity_exporter.Packet.Access.{
  Tuple, to_bytes, get_connection, put_connection, set_connection,
}
use connectivity_exporter.Packet.Access.Array.{IsStorable, entry, sni_array-layout, entry-reads}

found-value : {A : Type 0} (r : Reply A) {a : A} → found r ≡ some a → r ≡ value a
found-value (value x) h = cc
found-value (failure e) h = absurd (cc h)

by_decision : {A V : Type 0} (d : Dec A) (v old : V) → A → ite d v old ≡ v
by_decision (yes p) v old a = refl
by_decision (no n) v old a = absurd (n a)

module _ (connections : BpfMap GoString CTupleData GoString-discrete) where
  open connections use {Map, lookup, put, lookup-put}

  same_key :
      (key : GoString) (v old : Option CTupleData) → ite (GoString-discrete key key) v old ≡ v
  same_key key v old = by_decision (GoString-discrete key key) v old refl

  put_connection-Stored :
      (m m1 : Map) (key : GoString) (td : TupleData)
      → IsStorable td
      → length td.sni ≤ tls_max_server_name_len
      → put_connection connections m key td ≡ ok (m1, none)
      → lookup m1 key ≡ value (entry td)
  unfolding put_connection
  put_connection-Stored m m1 key td h le e =
      let same : put m key (entry td) ≡ (m1, none) =
        ok-injective (rw (put_connection, sni_array-layout td h le) at e) in
      found-value (lookup m1 key) (
        ap (λ r. found (lookup r.0 key)) (sym same)
        ∙ lookup-put m key key (entry td) (ap (λ r. r.1) same)
        ∙ same_key key (some (entry td)) _)

  not_long :
      (m m1 : Map) (td : TupleData) (long : Bool) (later : Outcome (Map × Option Error))
      → ltb tls_max_server_name_len (length td.sni) ≡ long
      → (if long then ok (m, some sni_too_long) else later) ≡ ok (m1, none)
      → (length td.sni ≤ tls_max_server_name_len) × (later ≡ ok (m1, none))
  not_long m m1 td true later q e = absurd (cc (ap (λ r. r.1) (ok-injective e)))
  not_long m m1 td false later q e = (ground (arith, q), e)

  -- Once `setConnection` has succeeded, `getConnection` gives the connection back, for addresses of
  -- four bytes and a name in ASCII with no zero byte, but for the tick, which is zero.
  pub get_connection-set_connection :
      (m m1 : Map) (t : Tuple) (td : TupleData)
      → IsStorable td
      → set_connection connections m t td ≡ ok (m1, none)
      → get_connection connections m1 t ≡ ok (record td { ticker_clock_first_packet = 0 })
  unfolding set_connection get_connection
  get_connection-set_connection m m1 t td h e =
      let (key, q, rest) = >>=-eq-ok (to_bytes t) _ e in
      let (le, stored) = not_long m m1 td _ _ refl rest in
      rw (get_connection, q, put_connection-Stored m m1 key td h le stored)
        (ap ok (entry-reads td h le))
