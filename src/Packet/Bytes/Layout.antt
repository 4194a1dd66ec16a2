-- ===== src/Packet/Bytes/Layout.antt =====
-- The fields of the 136 bytes that `tupleDataFromC` of connectivity-exporter/packet/bpf.go reads.
use mathlib.Core.List.{append_assoc}
use connectivity_exporter.Prelude.{
  ℕ, ◌+◌, ◌-◌, ◌≤◌, ◌≡◌, refl, sym, ap, ◌∙◌, arith, [], ◌∷◌, ◌++◌, length, length-append, take,
  drop, replicate, length-replicate,
}
use connectivity_exporter.Prelude.GoString.{GoString}
use connectivity_exporter.Packet.Connection.{TupleData}
use connectivity_exporter.Packet.Bytes.{
  set_at, before_zero, Buffers, scatter, CTupleData, tuple_data_from_c, tls_max_server_name_len,
}

pub set_at-append :
    (before : GoString) (b : ℕ) (after : GoString) (c : ℕ)
    → set_at (before ++ b ∷ after) (length before) c ≡ before ++ c ∷ after
set_at-append [] b after c = refl
set_at-append (x ∷ before) b after c = ap (λ t. x ∷ t) (set_at-append before b after c)

abbrev with_sni : Buffers → GoString → Buffers
with_sni b s = record b { sni_bytes = s }

scatter_name :
    (i c : ℕ) (rest : GoString) (b : Buffers)
    → 8 ≤ i
    → scatter i (c ∷ rest) b ≡ scatter (i + 1) rest (with_sni b (set_at b.sni_bytes (i - 8) c))
unfolding scatter
scatter_name i c rest b h = ground arith

-- From the eighth byte on the loop overwrites the name's buffer, byte by byte.
scatter-sni :
    (i : ℕ) (before rest old : GoString) (b : Buffers)
    → i ≡ 8 + length before
    → length old ≡ length rest
    → scatter i rest (with_sni b (before ++ old)) ≡ with_sni b (before ++ rest)
unfolding scatter
scatter-sni i before [] [] b at e = refl
scatter-sni i before [] (x ∷ old) b at e = absurd (omega arith)
scatter-sni i before (c ∷ rest) [] b at e = absurd (omega arith)
scatter-sni i before (c ∷ rest) (x ∷ old) b at e =
    scatter_name i c rest (with_sni b (before ++ x ∷ old)) (omega arith)
    ∙ ap (λ t. scatter (i + 1) rest (with_sni b t)) written
    ∙ scatter-sni (i + 1) (before ++ c ∷ []) rest old b
        (omega (arith, length-append before (c ∷ []))) (omega arith)
    ∙ ap (with_sni b) (append_assoc before (c ∷ []) rest)
  where
    place : i - 8 ≡ length before
    place = omega arith

    written : set_at (before ++ x ∷ old) (i - 8) c ≡ (before ++ c ∷ []) ++ old
    written =
        ap (λ n. set_at (before ++ x ∷ old) n c) place
        ∙ set_at-append before x old c
        ∙ sym (append_assoc before (c ∷ []) old)

abbrev fresh : Buffers
fresh = record {
  source = replicate 4 0;
  dest = replicate 4 0;
  sni_bytes = replicate tls_max_server_name_len 0;
}

abbrev parts : GoString → Buffers
parts i = record { source = take 4 i; dest = take 4 (drop 4 i); sni_bytes = drop 8 i }

scatter_all : (i : GoString) → length i ≡ 8 + tls_max_server_name_len → scatter 0 i fresh ≡ parts i
unfolding scatter
scatter_all [] h = absurd (omega arith)
scatter_all (a ∷ []) h = absurd (omega arith)
scatter_all (a ∷ b ∷ []) h = absurd (omega arith)
scatter_all (a ∷ b ∷ c ∷ []) h = absurd (omega arith)
scatter_all (a ∷ b ∷ c ∷ d ∷ []) h = absurd (omega arith)
scatter_all (a ∷ b ∷ c ∷ d ∷ e ∷ []) h = absurd (omega arith)
scatter_all (a ∷ b ∷ c ∷ d ∷ e ∷ f ∷ []) h = absurd (omega arith)
scatter_all (a ∷ b ∷ c ∷ d ∷ e ∷ f ∷ g ∷ []) h = absurd (omega arith)
scatter_all (a ∷ b ∷ c ∷ d ∷ e ∷ f ∷ g ∷ k ∷ rest) h =
    scatter-sni 8 [] rest (replicate tls_max_server_name_len 0)
      (record { source = a ∷ b ∷ c ∷ d ∷ []; dest = e ∷ f ∷ g ∷ k ∷ []; sni_bytes = [] })
      (omega arith) (omega (arith, length-replicate {A = ℕ} tls_max_server_name_len 0))

-- Of an array of 8 + 128 bytes, the first four are the source, the next four the destination, and
-- the rest up to the first zero byte the name; the other fields are copied.
pub tuple_data_from_c_lem :
    (td : CTupleData)
    → length td.i ≡ 8 + tls_max_server_name_len
    → tuple_data_from_c td ≡ record {
      state = td.state;
      source_ip = take 4 td.i;
      dest_ip = take 4 (drop 4 td.i);
      sni = before_zero (drop 8 td.i);
      ticker_clock_first_packet = td.ticker_clock_first_packet;
    }
unfolding tuple_data_from_c
tuple_data_from_c_lem td h =
    let fields : Buffers → TupleData = λ b. record {
      state = td.state;
      source_ip = b.source;
      dest_ip = b.dest;
      sni = before_zero b.sni_bytes;
      ticker_clock_first_packet = td.ticker_clock_first_packet;
    } in
    ap fields (scatter_all td.i h)
