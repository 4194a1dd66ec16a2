-- ===== src/Packet/Bytes.antt =====
-- connectivity-exporter/packet/bpf.go and packet.go: keys and values as bytes.
pub mod Addresses
pub mod Layout
use connectivity_exporter.Prelude.{
  ℕ, zero, suc, ◌+◌, ◌-◌, ◌*◌, ◌/◌, ◌%◌, ◌^◌, Bool, List, [], ◌∷◌, ◌++◌, Option, none, some, ltb,
  ◌==◌, if◌then◌else◌, length, take, drop, replicate,
}
use connectivity_exporter.Prelude.GoString.{GoString, bytes}
use connectivity_exporter.Prelude.Results.{Outcome, ok, err, panic, ◌>>=◌, sni_too_long}
use connectivity_exporter.Packet.Connection.{TupleData, ConnKey}

-- `b[i] = v`; the program writes within bounds, which the lengths of its arrays guarantee.
abbrev pub set_at : GoString → ℕ → ℕ → GoString
set_at [] i v = []
set_at (b ∷ bs) zero v = v ∷ bs
set_at (b ∷ bs) (suc i) v = b ∷ set_at bs i v

-- `s[lo:hi]`, which panics out of range.
unfoldable pub slice : GoString → ℕ → ℕ → Outcome GoString
slice s lo hi =
    if ltb (length s) hi
    then panic
    else if ltb hi lo
    then panic
    else ok (take (hi - lo) (drop lo s))

-- `strings.SplitN(s, "\000", 2)[0]`: what stands before the first zero byte.
unfoldable pub before_zero : GoString → GoString
before_zero [] = []
before_zero (b ∷ bs) = let rest = before_zero bs in if b == 0 then [] else b ∷ rest

-- `binary.LittleEndian.PutUint32(b, v)` writes four bytes, and panics on a shorter slice.
unfoldable pub put_uint32 : GoString → ℕ → Outcome GoString
put_uint32 (b0 ∷ b1 ∷ b2 ∷ b3 ∷ bs) v =
    ok (v % 256 ∷ v / 2 ^ 8 % 256 ∷ v / 2 ^ 16 % 256 ∷ v / 2 ^ 24 % 256 ∷ bs)
put_uint32 _ v = panic

-- TLS_MAX_SERVER_NAME_LEN of c/types.h
abbrev pub tls_max_server_name_len : ℕ
tls_max_server_name_len = 128

-- `C.struct_tuple_data_t`; `i` is an array of 8 + 128 bytes.
pub record CTupleData : Type 0 where
  pub state : ℕ
  pub i : GoString
  pub num_packets : ℕ
  pub total_data_bytes : ℕ
  pub ticker_clock_first_packet : ℕ

-- The three buffers that the loop of `tupleDataFromC` fills.
pub record Buffers : Type 0 where
  pub source : GoString
  pub dest : GoString
  pub sni_bytes : GoString

unfoldable pub scatter : ℕ → GoString → Buffers → Buffers
scatter i [] b = b
scatter i (c ∷ cs) b = scatter (i + 1) cs (
    if ltb i 4
    then record b { source = set_at b.source i c }
    else if ltb i 8
    then record b { dest = set_at b.dest (i - 4) c }
    else record b { sni_bytes = set_at b.sni_bytes (i - 8) c })

unfoldable pub tuple_data_from_c : CTupleData → TupleData
unfolding scatter before_zero
tuple_data_from_c td =
    let b = scatter 0 td.i (record {
      source = replicate 4 0;
      dest = replicate 4 0;
      sni_bytes = replicate tls_max_server_name_len 0;
    }) in
    record {
      state = td.state;
      source_ip = b.source;
      dest_ip = b.dest;
      sni = before_zero b.sni_bytes;
      ticker_clock_first_packet = td.ticker_clock_first_packet;
    }
