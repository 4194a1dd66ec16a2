-- ===== src/Packet/Access/Array.antt =====
-- The bytes that `setConnection` stores.
use mathlib.Core.List.{append_assoc}
use connectivity_exporter.Prelude.{
  ℕ, zero, suc, ◌+◌, ◌-◌, ◌%◌, ◌≤◌, ◌<◌, ◌≡◌, refl, sym, ap, ◌∙◌, arith, true, [], ◌∷◌, ◌++◌, All,
  ltb, if◌then◌else◌, length, length-append, length-replicate, take, drop, replicate,
}
use connectivity_exporter.Prelude.GoString.{GoString}
use connectivity_exporter.Prelude.Results.{ok, panic}
use connectivity_exporter.Packet.Connection.{TupleData}
use connectivity_exporter.Packet.Bytes.{
  set_at, before_zero, CTupleData, tuple_data_from_c, tls_max_server_name_len,
}
use connectivity_exporter.Packet.Bytes.Layout.{set_at-append, tuple_data_from_c_lem}
use connectivity_exporter.Packet.Access.{write_bytes, decode_rune, runes, write_runes, sni_array}

-- ASCII text with no zero byte.
abbrev pub IsAscii : GoString → Type 0
IsAscii s = All (λ b. (0 < b) × (b < 128)) s

-- Bytes are written over as many others.
write_bytes-over :
    (at : ℕ) (before vs old after : GoString)
    → at ≡ length before
    → length old ≡ length vs
    → write_bytes at vs (before ++ (old ++ after)) ≡ ok (before ++ (vs ++ after))
unfolding write_bytes
write_bytes-over at before [] [] after place e = refl
write_bytes-over at before [] (x ∷ old) after place e = absurd (omega (arith, e))
write_bytes-over at before (v ∷ vs) [] after place e = absurd (omega (arith, e))
write_bytes-over at before (v ∷ vs) (x ∷ old) after place e =
    rw (write_bytes, inside)
      (ap (write_bytes (at + 1) vs) written
        ∙ write_bytes-over (at + 1) (before ++ (v ∷ [])) vs old after
            (omega (arith, place, length-append before (v ∷ []))) (omega (arith, e))
        ∙ ap ok (append_assoc before (v ∷ []) (vs ++ after)))
  where
    inside : ltb at (length (before ++ (x ∷ (old ++ after)))) ≡ true
    inside = ground (arith, place, length-append before (x ∷ (old ++ after)))

    written : set_at (before ++ (x ∷ (old ++ after))) at v ≡ (before ++ (v ∷ [])) ++ (old ++ after)
    written =
        ap (λ n. set_at (before ++ (x ∷ (old ++ after))) n v) place
        ∙ set_at-append before x (old ++ after) v
        ∙ sym (append_assoc before (v ∷ []) (old ++ after))

decode_rune-ascii : (b : ℕ) (bs : GoString) → b < 128 → decode_rune b bs ≡ (b, 1)
unfolding decode_rune
decode_rune-ascii b [] h = ground arith
decode_rune-ascii b (b1 ∷ []) h = ground arith
decode_rune-ascii b (b1 ∷ b2 ∷ []) h = ground arith
decode_rune-ascii b (b1 ∷ b2 ∷ b3 ∷ bs) h = ground arith

-- The runes of ASCII text are its bytes.
write_runes-ascii :
    (i : ℕ) (s sni : GoString)
    → IsAscii s
    → write_runes (runes i 0 s) sni ≡ write_bytes (i + 8) s sni
unfolding write_runes runes write_bytes
write_runes-ascii i [] sni h = refl
write_runes-ascii i (b ∷ bs) sni h =
    let small : b % 256 ≡ b = omega (arith, h.0.1) in
    rw (decode_rune-ascii b bs h.0.1, small)
      (ap (λ r. if ltb (i + 8) (length sni) then r else panic)
        (write_runes-ascii (i + 1) bs (set_at sni (i + 8) b) h.1
          ∙ ap (λ n. write_bytes n bs (set_at sni (i + 8) b)) (omega arith)))

same_zeros : (n k : ℕ) → n ≡ k → replicate {A = ℕ} n 0 ≡ replicate k 0
same_zeros n k e = ap (λ m. replicate m 0) e

replicate-append : (n k : ℕ) → replicate {A = ℕ} (n + k) 0 ≡ replicate n 0 ++ replicate k 0
replicate-append zero k = same_zeros (0 + k) k (omega arith)
replicate-append (suc n) k =
    same_zeros (suc n + k) (suc (n + k)) (omega arith) ∙ ap (λ t. 0 ∷ t) (replicate-append n k)

before_zero-ascii : (s : GoString) (k : ℕ) → IsAscii s → before_zero (s ++ replicate k 0) ≡ s
unfolding before_zero
before_zero-ascii [] zero h = refl
before_zero-ascii [] (suc k) h = refl
before_zero-ascii (b ∷ s) k h = ground (arith, h.0, before_zero-ascii s k h.1)

-- The array that is stored.
abbrev pub layout : TupleData → GoString
layout td =
    td.source_ip
    ++ (td.dest_ip ++ (td.sni ++ replicate (tls_max_server_name_len - length td.sni) 0))

-- What is known of a connection that reads back.
pub record IsStorable (td : TupleData) : Type 0 where
  pub source : length td.source_ip ≡ 4
  pub dest : length td.dest_ip ≡ 4
  pub name : IsAscii td.sni

zeros : (n : ℕ) → n ≤ 128 → replicate {A = ℕ} 128 0 ≡ replicate n 0 ++ replicate (128 - n) 0
zeros n le = same_zeros 128 (n + (128 - n)) (omega arith) ∙ replicate-append n (128 - n)

pub sni_array-layout :
    (td : TupleData)
    → IsStorable td
    → length td.sni ≤ tls_max_server_name_len
    → sni_array td ≡ ok (layout td)
unfolding sni_array
sni_array-layout td h le =
    let n = length td.sni in
    let rest : GoString = replicate (128 - n) 0 in
    let source =
      write_bytes-over 0 [] td.source_ip (replicate 4 0) (replicate 4 0 ++ replicate 128 0) refl
        (sym h.source) in
    let dest =
      write_bytes-over 4 td.source_ip td.dest_ip (replicate 4 0) (replicate 128 0) (sym h.source)
        (sym h.dest) in
    let name =
      write_bytes-over 8 (td.source_ip ++ td.dest_ip) td.sni (replicate n 0) rest
        (omega (arith, h.source, h.dest, length-append td.source_ip td.dest_ip))
        (length-replicate n 0) in
    rw (sni_array, source, dest)
      (write_runes-ascii 0 td.sni (td.source_ip ++ (td.dest_ip ++ replicate 128 0)) h.name
        ∙ ap (write_bytes 8 td.sni) (
            ap (λ t. td.source_ip ++ (td.dest_ip ++ t)) (zeros n le)
            ∙ sym (append_assoc td.source_ip td.dest_ip (replicate n 0 ++ rest)))
        ∙ name
        ∙ ap ok (append_assoc td.source_ip td.dest_ip (td.sni ++ rest)))

length-layout :
    (td : TupleData)
    → IsStorable td
    → length td.sni ≤ tls_max_server_name_len
    → length (layout td) ≡ 8 + tls_max_server_name_len
length-layout td h le =
    let n = length td.sni in
    let rest : GoString = replicate (128 - n) 0 in
    omega (
      arith,
      h.source,
      h.dest,
      length-append td.source_ip (td.dest_ip ++ (td.sni ++ rest)),
      length-append td.dest_ip (td.sni ++ rest),
      length-append td.sni rest,
      length-replicate {A = ℕ} (128 - n) 0,
    )

take-append : (s t : GoString) (n : ℕ) → length s ≡ n → take n (s ++ t) ≡ s
take-append [] t zero e = refl
take-append [] t (suc n) e = absurd (omega (arith, e))
take-append (b ∷ s) t zero e = absurd (omega (arith, e))
take-append (b ∷ s) t (suc n) e = ap (λ r. b ∷ r) (take-append s t n (omega (arith, e)))

drop-append : (s t : GoString) (n : ℕ) → length s ≡ n → drop n (s ++ t) ≡ t
drop-append [] t zero e = refl
drop-append [] t (suc n) e = absurd (omega (arith, e))
drop-append (b ∷ s) t zero e = absurd (omega (arith, e))
drop-append (b ∷ s) t (suc n) e = drop-append s t n (omega (arith, e))

-- The entry that `setConnection` puts.
abbrev pub entry : TupleData → CTupleData
entry td = record {
  state = td.state;
  i = layout td;
  num_packets = 0;
  total_data_bytes = 0;
  ticker_clock_first_packet = 0;
}

pub entry-reads :
    (td : TupleData)
    → IsStorable td
    → length td.sni ≤ tls_max_server_name_len
    → tuple_data_from_c (entry td) ≡ record td { ticker_clock_first_packet = 0 }
entry-reads td h le =
    let n = length td.sni in
    let named : GoString = td.sni ++ replicate (128 - n) 0 in
    let after : drop 4 (layout td) ≡ td.dest_ip ++ named =
      drop-append td.source_ip (td.dest_ip ++ named) 4 h.source in
    let last : drop 8 (layout td) ≡ named =
      ap (drop 8) (sym (append_assoc td.source_ip td.dest_ip named))
      ∙ drop-append (td.source_ip ++ td.dest_ip) named 8
          (omega (arith, h.source, h.dest, length-append td.source_ip td.dest_ip)) in
    tuple_data_from_c_lem (entry td) (length-layout td h le)
    ∙ rw
        (
          take-append td.source_ip (td.dest_ip ++ named) 4 h.source,
          ap (take 4) after ∙ take-append td.dest_ip named 4 h.dest,
          ap before_zero last ∙ before_zero-ascii td.sni (128 - n) h.name,
        )
        refl
