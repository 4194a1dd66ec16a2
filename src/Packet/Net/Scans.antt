-- ===== src/Packet/Net/Scans.antt =====
-- The scans for a slash, a dot or a colon, on texts free of it.
use connectivity_exporter.Prelude.{
  ℕ, ◌<◌, ◌≡◌, refl, arith, Bool, true, false, ◌&&◌, not, [], ◌∷◌, ◌++◌, none, some, ◌==◌, dec_lt,
}
use connectivity_exporter.Prelude.GoString.{GoString}
use connectivity_exporter.Packet.Bytes.Addresses.{decimal}
use connectivity_exporter.Packet.Net.{is_digit, parse_ip_by, parse_ipv4}
use connectivity_exporter.Packet.Net.Networks.{cut_slash}
use connectivity_exporter.Packet.Net.Quads.{decimal-one, decimal-two, decimal-three, dotted}

-- No byte of the text is this one.
unfoldable pub free : ℕ → GoString → Bool
free x [] = true
free x (b ∷ bs) = let rest = free x bs in not (b == x) && rest

free-append : (x : ℕ) (s t : GoString) → free x s ≡ true → free x t ≡ true → free x (s ++ t) ≡ true
unfolding free
free-append x [] t hs ht = ht
free-append x (b ∷ s) t hs ht = ground (arith, free-append x s t)

pub decimal-free : (x n : ℕ) → n < 256 → is_digit x ≡ false → free x (decimal n) ≡ true
unfolding free decimal
decimal-free x n small h = elim (dec_lt n 10) [
  | yes lt ↦ rw (decimal-one n lt) (ground arith)
  | no ge ↦ elim (dec_lt n 100) [
    | yes lt ↦ rw (decimal-two n (omega arith) lt) (ground arith)
    | no gt ↦ rw (decimal-three n (omega arith)) (ground arith)
  ]
]

-- A number and the dot after it.
dot-free :
    (x n : ℕ) (t : GoString)
    → n < 256
    → (b'.' == x) ≡ false
    → is_digit x ≡ false
    → free x t ≡ true
    → free x (decimal n ++ (b'.' ∷ t)) ≡ true
unfolding free
dot-free x n t small ne h ht =
    free-append x (decimal n) (b'.' ∷ t) (decimal-free x n small h) (ground (arith, ne, ht))

pub dotted-free :
    (x a b c d : ℕ)
    → a < 256
    → b < 256
    → c < 256
    → d < 256
    → (b'.' == x) ≡ false
    → is_digit x ≡ false
    → free x (dotted a b c d []) ≡ true
unfolding free
dotted-free x a b c d ha hb hc hd ne h =
    let ends = free-append x (decimal d) [] (decimal-free x d hd h) refl in
    dot-free x a _ ha ne h (dot-free x b _ hb ne h (dot-free x c _ hc ne h ends))

pub free-cons :
    (x b : ℕ) (s : GoString) → free x (b ∷ s) ≡ true → ((b == x) ≡ false) × (free x s ≡ true)
unfolding free
free-cons x b s h = ground (arith, h)

pub cut_slash-free : (s : GoString) → free b'/' s ≡ true → cut_slash s ≡ none
unfolding cut_slash
cut_slash-free [] h = refl
cut_slash-free (b ∷ s) h = let (ne, hs) = free-cons b'/' b s h in rw (ne, cut_slash-free s hs) refl

pub cut_slash-slash :
    (s rest : GoString) → free b'/' s ≡ true → cut_slash (s ++ (b'/' ∷ rest)) ≡ some (s, rest)
unfolding cut_slash
cut_slash-slash [] rest h = refl
cut_slash-slash (b ∷ s) rest h =
    let (ne, hs) = free-cons b'/' b s h in rw (ne, cut_slash-slash s rest hs) refl

-- The scan of `ParseIP` reaches the dot.
pub parse_ip_by-dot :
    (text s rest : GoString)
    → free b':' s ≡ true
    → free b'.' s ≡ true
    → parse_ip_by text (s ++ (b'.' ∷ rest)) ≡ parse_ipv4 text
unfolding parse_ip_by
parse_ip_by-dot text [] rest h1 h2 = refl
parse_ip_by-dot text (b ∷ s) rest h1 h2 =
    let (ne1, hs1) = free-cons b':' b s h1 in
    let (ne2, hs2) = free-cons b'.' b s h2 in rw (ne1, ne2) (parse_ip_by-dot text s rest hs1 hs2)
