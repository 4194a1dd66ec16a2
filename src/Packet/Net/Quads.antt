-- ===== src/Packet/Net/Quads.antt =====
-- Dotted decimal addresses read back.
use connectivity_exporter.Prelude.{
  ℕ, ◌+◌, ◌*◌, ◌/◌, ◌%◌, ◌<◌, ◌≤◌, ◌≡◌, refl, ap, sym, ◌∙◌, arith, Bool, true, false, ◌&&◌, not, [],
  ◌∷◌, ◌++◌, Option, none, some, ltb, dec_lt,
}
use connectivity_exporter.Prelude.GoString.{GoString}
use mathlib.Core.List.{append-nil, append_assoc}
use connectivity_exporter.Prelude.Results.{ok, ok-injective}
use connectivity_exporter.Packet.Bytes.Addresses.{decimal, ip_string}
use connectivity_exporter.Packet.Net.{
  Parsed, big, is_digit, guard, dtoi, dtoi_from, octet, starts_with, parse_ipv4, dot, v4_in_v6,
}

-- No digit comes next.
abbrev pub stops : GoString → Bool
stops [] = true
stops (b ∷ bs) = not (is_digit b)

dtoi_from-stops :
    (n i : ℕ) (rest : GoString) → 0 < i → stops rest ≡ true → dtoi_from n i rest ≡ some (n, i, rest)
unfolding dtoi_from
dtoi_from-stops n i [] pos h = ground arith
dtoi_from-stops n i (b ∷ bs) pos h = ground arith

dtoi_from-digit :
    (n m i d : ℕ) (bs : GoString)
    → d < 10
    → n * 10 + d ≡ m
    → m < big
    → dtoi_from n i ((48 + d) ∷ bs) ≡ dtoi_from m (i + 1) bs
unfolding dtoi_from
dtoi_from-digit n m i d bs lt e small = rw (sym e) (ground arith)

-- A number below 256 with no leading zero is read.
octet-dtoi :
    (s rest : GoString) (n c : ℕ)
    → dtoi s ≡ some (n, c, rest)
    → n < 256
    → (ltb 1 c && starts_with b'0' s) ≡ false
    → octet s ≡ some (n, rest)
unfolding octet
octet-dtoi s rest n c e small ne = rw (e, ne) (ground arith)

one_digit :
    (d : ℕ) (rest : GoString)
    → d < 10
    → stops rest ≡ true
    → octet ((48 + d) ∷ rest) ≡ some (d, rest)
one_digit d rest lt h =
    octet-dtoi _ rest d 1
      (dtoi_from-digit 0 d 0 d rest lt (omega arith) (omega arith)
        ∙ dtoi_from-stops d 1 rest (omega arith) h)
      (omega arith) refl

two_digits :
    (d e : ℕ) (rest : GoString)
    → 0 < d
    → d < 10
    → e < 10
    → stops rest ≡ true
    → octet ((48 + d) ∷ (48 + e) ∷ rest) ≡ some (d * 10 + e, rest)
two_digits d e rest pos lt le h =
    octet-dtoi _ rest (d * 10 + e) 2
      (dtoi_from-digit 0 d 0 d ((48 + e) ∷ rest) lt (omega arith) (omega arith)
        ∙ dtoi_from-digit d (d * 10 + e) 1 e rest le refl (omega arith)
        ∙ dtoi_from-stops (d * 10 + e) 2 rest (omega arith) h)
      (omega arith) (ground arith)

three_digits :
    (d e f : ℕ) (rest : GoString)
    → 0 < d
    → d < 10
    → e < 10
    → f < 10
    → (d * 10 + e) * 10 + f < 256
    → stops rest ≡ true
    → octet ((48 + d) ∷ (48 + e) ∷ (48 + f) ∷ rest) ≡ some ((d * 10 + e) * 10 + f, rest)
three_digits d e f rest pos lt le lf small h =
    let n = (d * 10 + e) * 10 + f in
    octet-dtoi _ rest n 3
      (dtoi_from-digit 0 d 0 d ((48 + e) ∷ (48 + f) ∷ rest) lt (omega arith) (omega arith)
        ∙ dtoi_from-digit d (d * 10 + e) 1 e ((48 + f) ∷ rest) le refl (omega arith)
        ∙ dtoi_from-digit (d * 10 + e) n 2 f rest lf refl (omega arith)
        ∙ dtoi_from-stops n 3 rest (omega arith) h)
      small (ground arith)

pub decimal-one : (n : ℕ) → n < 10 → decimal n ≡ (48 + n) ∷ []
unfolding decimal
decimal-one n lt = ground arith

pub decimal-two : (n : ℕ) → 10 ≤ n → n < 100 → decimal n ≡ (48 + n / 10) ∷ (48 + n % 10) ∷ []
unfolding decimal
decimal-two n le lt = ground arith

pub decimal-three :
    (n : ℕ) → 100 ≤ n → decimal n ≡ (48 + n / 100) ∷ (48 + n / 10 % 10) ∷ (48 + n % 10) ∷ []
unfolding decimal
decimal-three n le = ground arith

-- Each byte reads back from its decimal text.
pub octet-decimal :
    (n : ℕ) (rest : GoString)
    → n < 256
    → stops rest ≡ true
    → octet (decimal n ++ rest) ≡ some (n, rest)
octet-decimal n rest small h = elim (dec_lt n 10) [
  | yes lt ↦ rw (decimal-one n lt) (one_digit n rest lt h)
  | no ge ↦ elim (dec_lt n 100) [
    | yes lt ↦ rw (decimal-two n (omega arith) lt) (
        two_digits (n / 10) (n % 10) rest (omega arith) (omega arith) (omega arith) h
        ∙ ap (λ m. some (m, rest)) (omega arith))
    | no gt ↦ rw (decimal-three n (omega arith)) (
        three_digits (n / 100) (n / 10 % 10) (n % 10) rest (omega arith) (omega arith) (omega arith)
          (omega arith) (omega arith) h
        ∙ ap (λ m. some (m, rest)) (omega arith))
  ]
]

pub some-injective : {X : Type 0} {x y : X} → some x ≡ some y → x ≡ y
some-injective h = cc

pub guard-some : {X : Type 0} (b : Bool) (o : Option X) {x : X} → guard b o ≡ some x → o ≡ some x
guard-some true o h = h
guard-some false o h = absurd (cc h)

octet-Read :
    (s rest : GoString) (n : ℕ) (read : Option Parsed)
    → dtoi s ≡ read
    → octet s ≡ some (n, rest)
    → (c : ℕ) × (dtoi s ≡ some (n, c, rest))
unfolding octet
octet-Read s rest n none q h = absurd (cc (rw q at h))
octet-Read s rest n (some (m, c, t)) q h =
    let same = guard-some _ _ (guard-some _ _ (rw q at h)) in
    (c, q ∙ ap (λ r. some (r.0, c, r.1)) (some-injective same))

-- What `dtoi` makes of a number alone.
pub dtoi-decimal : (n : ℕ) → n < 256 → (c : ℕ) × (dtoi (decimal n) ≡ some (n, c, []))
dtoi-decimal n small =
    let (c, h) =
      octet-Read (decimal n ++ []) [] n (dtoi (decimal n ++ [])) refl
        (octet-decimal n [] small refl) in
    (c, ap dtoi (sym (append-nil (decimal n))) ∙ h)

-- The text of four bytes.
abbrev pub dotted : ℕ → ℕ → ℕ → ℕ → GoString → GoString
dotted a b c d rest =
    decimal a ++ (b'.' ∷ (decimal b ++ (b'.' ∷ (decimal c ++ (b'.' ∷ (decimal d ++ rest))))))

pub parse_ipv4-dotted :
    (a b c d : ℕ)
    → a < 256
    → b < 256
    → c < 256
    → d < 256
    → parse_ipv4 (dotted a b c d []) ≡ some (v4_in_v6 ++ (a ∷ b ∷ c ∷ d ∷ []))
unfolding parse_ipv4 dot
parse_ipv4-dotted a b c d ha hb hc hd =
    let sd = decimal d ++ [] in
    let sc = decimal c ++ (b'.' ∷ sd) in
    let sb = decimal b ++ (b'.' ∷ sc) in
    rw
      (
        octet-decimal a (b'.' ∷ sb) ha refl,
        octet-decimal b (b'.' ∷ sc) hb refl,
        octet-decimal c (b'.' ∷ sd) hc refl,
        octet-decimal d [] hd refl,
      )
      refl

pub dotted-append :
    (a b c d : ℕ) (s rest : GoString)
    → ip_string (a ∷ b ∷ c ∷ d ∷ []) ≡ ok s
    → s ++ rest ≡ dotted a b c d rest
unfolding ip_string
dotted-append a b c d s rest e =
    let sa = decimal a in
    let sb : GoString = b'.' ∷ decimal b in
    let sc : GoString = b'.' ∷ decimal c in
    let sd : GoString = b'.' ∷ decimal d in
    ap (λ t. t ++ rest) (sym (ok-injective e))
    ∙ append_assoc ((sa ++ sb) ++ sc) sd rest
    ∙ append_assoc (sa ++ sb) sc (sd ++ rest)
    ∙ append_assoc sa sb (sc ++ (sd ++ rest))

pub dotted-eq :
    (a b c d : ℕ) (s : GoString) → ip_string (a ∷ b ∷ c ∷ d ∷ []) ≡ ok s → s ≡ dotted a b c d []
dotted-eq a b c d s e = sym (append-nil s) ∙ dotted-append a b c d s [] e
