-- ===== src/Packet/Access.antt =====
-- connectivity-exporter/packet/bpf.go: `tuple.toBytes`, `getConnection`, `setConnection`.
pub mod Array
pub mod Stored
use connectivity_exporter.Prelude.{
  ℕ, zero, suc, ◌+◌, ◌-◌, ◌*◌, ◌/◌, ◌%◌, ◌^◌, Bool, ◌&&◌, List, [], ◌∷◌, ◌++◌, Option, none, some,
  leb, ltb, ◌==◌, if◌then◌else◌, length, replicate,
}
use connectivity_exporter.Prelude.GoString.{GoString, GoString-discrete}
use connectivity_exporter.Prelude.Results.{
  Error, Outcome, ok, err, panic, ◌>>=◌, Reply, value, failure, sni_too_long,
}
use connectivity_exporter.Packet.Connection.{TupleData}
use connectivity_exporter.Packet.Bytes.{
  set_at, slice, CTupleData, tuple_data_from_c, tls_max_server_name_len,
}
use connectivity_exporter.Packet.Ebpf.{BpfMap}

-- `tuple`; an IP is given by the bytes of its array up to its capacity, which is what the slices of
-- `toBytes` check: they panic on fewer than 16.
pub record Tuple : Type 0 where
  pub src_ip : GoString
  pub dst_ip : GoString
  pub src_port : ℕ
  pub dst_port : ℕ

-- `binary.BigEndian.PutUint16`
abbrev pub uint16_bytes : ℕ → GoString
uint16_bytes v = v / 2 ^ 8 % 256 ∷ v % 256 ∷ []

unfoldable pub to_bytes : Tuple → Outcome GoString
unfolding slice
to_bytes t = do
  source ← slice t.src_ip 12 16
  dest ← slice t.dst_ip 12 16
  ok (source ++ (dest ++ (uint16_bytes t.src_port ++ uint16_bytes t.dst_port)))

-- `for i, v := range ip { sni[i+at] = v }`; a panic out of range.
unfoldable pub write_bytes : ℕ → GoString → GoString → Outcome GoString
write_bytes at [] sni = ok sni
write_bytes at (v ∷ vs) sni =
    let rest = write_bytes (at + 1) vs (set_at sni at v) in
    if ltb at (length sni) then rest else panic

-- A byte that goes on a rune, in its usual range or in a smaller one.
abbrev pub within : ℕ → ℕ → ℕ → Bool
within lo hi b = leb lo b && leb b hi

-- The bytes that may stand second in a rune that begins with this byte.
abbrev pub second_within : ℕ → ℕ → Bool
second_within b0 b1 =
    within (if b0 == 0xe0 then 0xa0 else if b0 == 0xf0 then 0x90 else 0x80)
      (if b0 == 0xed then 0x9f else if b0 == 0xf4 then 0x8f else 0xbf) b1

-- A rune of the text and its width; U+FFFD of width one where the text is not UTF-8.
unfoldable pub decode_rune : ℕ → GoString → ℕ × ℕ
decode_rune b0 (b1 ∷ b2 ∷ b3 ∷ bs) =
    if ltb b0 0x80
    then (b0, 1)
    else if within 0xc2 0xdf b0 && second_within b0 b1
    then (b0 % 32 * 64 + b1 % 64, 2)
    else if within 0xe0 0xef b0 && (second_within b0 b1 && within 0x80 0xbf b2)
    then (b0 % 16 * 4096 + b1 % 64 * 64 + b2 % 64, 3)
    else if within 0xf0 0xf4 b0
        && (second_within b0 b1 && (within 0x80 0xbf b2 && within 0x80 0xbf b3))
    then (b0 % 8 * 262144 + b1 % 64 * 4096 + b2 % 64 * 64 + b3 % 64, 4)
    else (0xfffd, 1)
decode_rune b0 (b1 ∷ b2 ∷ []) =
    if ltb b0 0x80
    then (b0, 1)
    else if within 0xc2 0xdf b0 && second_within b0 b1
    then (b0 % 32 * 64 + b1 % 64, 2)
    else if within 0xe0 0xef b0 && (second_within b0 b1 && within 0x80 0xbf b2)
    then (b0 % 16 * 4096 + b1 % 64 * 64 + b2 % 64, 3)
    else (0xfffd, 1)
decode_rune b0 (b1 ∷ []) =
    if ltb b0 0x80
    then (b0, 1)
    else if within 0xc2 0xdf b0 && second_within b0 b1
    then (b0 % 32 * 64 + b1 % 64, 2)
    else (0xfffd, 1)
decode_rune b0 [] = if ltb b0 0x80 then (b0, 1) else (0xfffd, 1)

-- The pairs that `range` yields over a string from an index on: where each rune begins, and the
-- rune. So many bytes are passed over first.
unfoldable pub runes : ℕ → ℕ → GoString → List (ℕ × ℕ)
unfolding decode_rune
runes i skip [] = []
runes i (suc skip) (b ∷ bs) = runes (i + 1) skip bs
runes i zero (b ∷ bs) = let (r, width) = decode_rune b bs in (i, r) ∷ runes (i + 1) (width - 1) bs

-- `for i, v := range td.sni { sni[i+8] = byte(v) }`
unfoldable pub write_runes : List (ℕ × ℕ) → GoString → Outcome GoString
write_runes [] sni = ok sni
write_runes ((i, r) ∷ rs) sni =
    let rest = write_runes rs (set_at sni (i + 8) (r % 256)) in
    if ltb (i + 8) (length sni) then rest else panic

-- The array `i` of the entry.
unfoldable pub sni_array : TupleData → Outcome GoString
unfolding write_bytes write_runes runes
sni_array td = do
  with_source ← write_bytes 0 td.source_ip (replicate (tls_max_server_name_len + 8) 0)
  with_dest ← write_bytes 4 td.dest_ip with_source
  write_runes (runes 0 0 td.sni) with_dest

module _ (connections : BpfMap GoString CTupleData GoString-discrete) where
  open connections use {Map, lookup, put}

  unfoldable pub get_connection : Map → Tuple → Outcome TupleData
  unfolding to_bytes
  get_connection m t = do
    key ← to_bytes t
    elim (lookup m key) [ value v ↦ ok (tuple_data_from_c v) | failure e ↦ err e ]

  -- The end of `setConnection`: the map after it, and the error of `Put`.
  unfoldable pub put_connection : Map → GoString → TupleData → Outcome (Map × Option Error)
  unfolding sni_array
  put_connection m key td = do
    sni ← sni_array td
    ok (
        put m key (record {
          state = td.state;
          i = sni;
          num_packets = 0;
          total_data_bytes = 0;
          ticker_clock_first_packet = 0;
        }))

  unfoldable pub set_connection : Map → Tuple → TupleData → Outcome (Map × Option Error)
  unfolding to_bytes put_connection
  set_connection m t td = to_bytes t >>= λ key.
      if ltb tls_max_server_name_len (length td.sni)
      then ok (m, some sni_too_long)
      else put_connection m key td
