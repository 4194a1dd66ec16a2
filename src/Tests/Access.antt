-- ===== src/Tests/Access.antt =====
-- A connection that is stored and read back, and a name that is not ASCII.
use connectivity_exporter.Prelude.{◌≡◌, refl, arith, [], ◌∷◌, ◌++◌, none, replicate}
use connectivity_exporter.Prelude.GoString.{GoString, bytes, GoString-discrete}
use connectivity_exporter.Prelude.Results.{ok}
use connectivity_exporter.Packet.Connection.{TupleData}
use connectivity_exporter.Packet.Bytes.{slice, CTupleData}
use connectivity_exporter.Packet.Ebpf.{BpfMap}
use connectivity_exporter.Packet.Access.{
  Tuple, to_bytes, sni_array, write_bytes, write_runes, runes, decode_rune, get_connection,
  set_connection, put_connection,
}
use connectivity_exporter.Packet.Access.Array.{IsStorable, entry}
use connectivity_exporter.Packet.Access.Stored.{get_connection-set_connection}
use connectivity_exporter.Tests.Models.{map_of}

abbrev connections : BpfMap GoString CTupleData GoString-discrete
connections = map_of GoString-discrete

abbrev tuple : Tuple
tuple = record {
  src_ip = replicate 10 0 ++ (255 ∷ 255 ∷ 10 ∷ 0 ∷ 0 ∷ 1 ∷ []);
  dst_ip = replicate 10 0 ++ (255 ∷ 255 ∷ 10 ∷ 0 ∷ 0 ∷ 2 ∷ []);
  src_port = 4711;
  dst_port = 443;
}

abbrev connection : TupleData
connection = record {
  state = 2;
  source_ip = 10 ∷ 0 ∷ 0 ∷ 1 ∷ [];
  dest_ip = 10 ∷ 0 ∷ 0 ∷ 2 ∷ [];
  sni = bytes "a.b";
  ticker_clock_first_packet = 7;
}

connection-IsStorable : IsStorable connection
connection-IsStorable = record {
  source = refl;
  dest = refl;
  name =
      ((omega arith, omega arith), ((omega arith, omega arith), ((omega arith, omega arith), tt)));
}

abbrev key : GoString
key = 10 ∷ 0 ∷ 0 ∷ 1 ∷ 10 ∷ 0 ∷ 0 ∷ 2 ∷ 18 ∷ 103 ∷ 1 ∷ 187 ∷ []

connection_set :
    set_connection connections ([], tt) tuple connection
    ≡ ok ((connections.put ([], tt) key (entry connection)).0, none)
unfolding set_connection put_connection to_bytes slice sni_array write_bytes write_runes runes
    decode_rune
connection_set = refl

get_connection-set_connection_example :
    get_connection connections (connections.put ([], tt) key (entry connection)).0 tuple
    ≡ ok (record connection { ticker_clock_first_packet = 0 })
get_connection-set_connection_example =
    get_connection-set_connection connections ([], tt)
      (connections.put ([], tt) key (entry connection)).0 tuple connection connection-IsStorable
      connection_set

-- The name of two runes is stored as two bytes with a gap.
abbrev accented : TupleData
accented = record connection { sni = 0xc3 ∷ 0xa9 ∷ 0x61 ∷ [] }

accented_stored :
    sni_array accented
    ≡ ok (accented.source_ip ++ (accented.dest_ip ++ (0xe9 ∷ 0 ∷ 0x61 ∷ replicate 125 0)))
unfolding sni_array write_bytes write_runes runes decode_rune
accented_stored = refl
