-- ===== src/Tests/Bytes.antt =====
-- A connection to the server name `a`, as bytes.
use connectivity_exporter.Prelude.{◌≡◌, refl, ◌∷◌, ◌++◌, take, drop, replicate}
use connectivity_exporter.Prelude.GoString.{bytes}
use connectivity_exporter.Packet.Bytes.{CTupleData, before_zero, tuple_data_from_c}
use connectivity_exporter.Packet.Bytes.Layout.{tuple_data_from_c_lem}

abbrev connection : CTupleData
connection = record {
  state = 2;
  i = 10 ∷ 0 ∷ 0 ∷ 1 ∷ 10 ∷ 0 ∷ 0 ∷ 2 ∷ bytes "a" ++ replicate 127 0;
  num_packets = 4;
  total_data_bytes = 900;
  ticker_clock_first_packet = 12;
}

tuple_data_from_c_lem_example : tuple_data_from_c connection ≡ record {
  state = 2;
  source_ip = take 4 connection.i;
  dest_ip = take 4 (drop 4 connection.i);
  sni = before_zero (drop 8 connection.i);
  ticker_clock_first_packet = 12;
}
tuple_data_from_c_lem_example = tuple_data_from_c_lem connection refl
