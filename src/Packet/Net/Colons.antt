-- ===== src/Packet/Net/Colons.antt =====
-- Texts with no colon: no IPv6 address, and what the cut at a slash keeps.
use connectivity_exporter.Prelude.{
  ℕ, suc, ◌+◌, ◌*◌, ◌≡◌, refl, ap, sym, ◌∙◌, arith, Bool, true, false, not, [], ◌∷◌, Option, none,
  some, leb, ◌==◌, if◌then◌else◌,
}
use connectivity_exporter.Prelude.GoString.{GoString}
use connectivity_exporter.Packet.Net.{
  Parsed, Six, guard, starts_with, xtoi, xtoi_from, hex_digit, groups, expand, trailing_ipv4,
  parse_ipv6,
}
use connectivity_exporter.Packet.Net.Networks.{cut_slash}
use connectivity_exporter.Packet.Net.Quads.{guard-some, some-injective}
use connectivity_exporter.Packet.Net.Scans.{free, free-cons}

stopped :
    (b : Bool) (m k n c : ℕ) (t rest : GoString)
    → guard {X = Parsed} b (some (m, k, t)) ≡ some (n, c, rest)
    → t ≡ rest
stopped true m k n c t rest h = ap (λ r. r.2) (some-injective h)
stopped false m k n c t rest h = absurd (cc h)

xtoi_from-free :
    (x m i n c : ℕ) (s rest : GoString)
    → free x s ≡ true
    → xtoi_from m i s ≡ some (n, c, rest)
    → free x rest ≡ true
unfolding xtoi_from
xtoi_from-free x m i n c [] rest h e =
    ap (free x) (sym (stopped (not (i == 0)) m i n c [] rest e)) ∙ h
xtoi_from-free x m i n c (b ∷ s) rest h e =
    by_digit (hex_digit b) refl
      (λ d. xtoi_from-free x (m * 16 + d) (i + 1) n c s rest (free-cons x b s h).1)
  where
    by_digit :
        (o : Option ℕ)
        → hex_digit b ≡ o
        → ((d : ℕ) → xtoi_from (m * 16 + d) (i + 1) s ≡ some (n, c, rest) → free x rest ≡ true)
        → free x rest ≡ true
    by_digit none q later =
        ap (free x) (sym (stopped (not (i == 0)) m i n c (b ∷ s) rest (rw (xtoi_from, q) at e))) ∙ h
    by_digit (some d) q later = later d (guard-some _ _ (rw (xtoi_from, q) at e))

-- What was read so far does not make an address.
abbrev ends : Option Six → Option GoString
ends read = elim read [ none ↦ none | some six ↦ expand six ]

ends-guard : (b : Bool) (o : Option Six) → ends o ≡ none → ends (guard b o) ≡ none
ends-guard true o h = h
ends-guard false o h = refl

not_dot :
    (t : Bool) (x y : Option Six) → ends x ≡ none → ends y ≡ none → ends (if t then x else y) ≡ none
not_dot true x y hx hy = hx
not_dot false x y hx hy = hy

-- The first group of a text with no colon is the last one.
first_group :
    (left n c : ℕ) (s rest : GoString)
    → free b':' rest ≡ true
    → xtoi s ≡ some (n, c, rest)
    → ends (groups (suc left) [] none s) ≡ none
unfolding groups trailing_ipv4 expand
first_group left n c s [] h e = rw (groups, e) (ends-guard (leb n 0xffff) _ refl)
first_group left n c s (b ∷ bs) h e =
    rw (groups, e, (free-cons b':' b bs h).0)
      (ends-guard (leb n 0xffff) _ (not_dot (b == b'.') none none refl refl))

no_group : (left : ℕ) (s : GoString) → xtoi s ≡ none → ends (groups (suc left) [] none s) ≡ none
unfolding groups
no_group left s e = rw (groups, e) refl

by_group :
    (left : ℕ) (s : GoString) (o : Option Parsed)
    → xtoi s ≡ o
    → free b':' s ≡ true
    → ends (groups (suc left) [] none s) ≡ none
by_group left s none e h = no_group left s e
by_group left s (some (n, c, rest)) e h =
    first_group left n c s rest (xtoi_from-free b':' 0 0 n c s rest h e) e

not_leading : (s : GoString) → free b':' s ≡ true → starts_with b':' s ≡ false
not_leading [] h = refl
not_leading (b ∷ s) h = (free-cons b':' b s h).0

pub parse_ipv6-free : (s : GoString) → free b':' s ≡ true → parse_ipv6 s ≡ none
unfolding parse_ipv6
parse_ipv6-free s h = rw (not_leading s h) (by_group 7 s (xtoi s) refl h)

addr-eq :
    {a t addr text : GoString}
    → ◌≡◌ {A = Option (GoString × GoString)} (some (a, t)) (some (addr, text))
    → a ≡ addr
addr-eq h = ap (λ r. r.0) (some-injective h)

free-onto :
    (x b : ℕ) (s a : GoString) → free x (b ∷ s) ≡ true → free x a ≡ true → free x (b ∷ a) ≡ true
unfolding free
free-onto x b s a h ha = ground (arith, h, ha)

pub cut_slash-addr :
    (x : ℕ) (s addr text : GoString)
    → free x s ≡ true
    → cut_slash s ≡ some (addr, text)
    → free x addr ≡ true
unfolding cut_slash free
cut_slash-addr x [] addr text h e = absurd (cc e)
cut_slash-addr x (b ∷ s) addr text h e =
    by_slash (b == b'/') refl (cut_slash s) refl
      (λ a t. cut_slash-addr x s a t (free-cons x b s h).1)
  where
    by_slash :
        (slash : Bool)
        → (b == b'/') ≡ slash
        → (o : Option (GoString × GoString)) → cut_slash s ≡ o
        → ((a t : GoString) → cut_slash s ≡ some (a, t) → free x a ≡ true)
        → free x addr ≡ true
    by_slash true p o q before = ap (free x) (sym (addr-eq (rw (cut_slash, p) at e)))
    by_slash false p none q before = absurd (cc (rw (cut_slash, p, q) at e))
    by_slash false p (some (a, t)) q before =
        ap (free x) (sym (addr-eq (rw (cut_slash, p, q) at e))) ∙ free-onto x b s a h (before a t q)
