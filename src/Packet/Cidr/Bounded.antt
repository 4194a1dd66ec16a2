-- ===== src/Packet/Cidr/Bounded.antt =====
-- The bounds of what `parseIPSizeCIDR` returns.
use connectivity_exporter.Prelude.{
  ℕ, zero, suc, ◌-◌, ◌≤◌, ◌≡◌, refl, ap, sym, ◌∙◌, arith, true, false, ◌&&◌, [], ◌∷◌, Option, none,
  some, ◌==◌, length, drop, ◌⊎◌, inl, inr, Bool-cases,
}
use connectivity_exporter.Prelude.GoString.{GoString}
use connectivity_exporter.Prelude.Results.{ok, ok-injective}
use connectivity_exporter.Packet.Net.{to4, has_prefix, parse_ip, v4_in_v6}
use connectivity_exporter.Packet.Net.Networks.{IpNet, parse_cidr}
use connectivity_exporter.Packet.Net.Quads.{some-injective}
use connectivity_exporter.Packet.Net.Scans.{free}
use connectivity_exporter.Packet.Cidr.{parse_ip_size_cidr}
use connectivity_exporter.Packet.Net.Sizes.{parse_cidr-size}

length-drop : (n : ℕ) (s : GoString) → length (drop n s) ≡ length s - n
length-drop zero s = omega arith
length-drop (suc n) [] = omega arith
length-drop (suc n) (b ∷ s) = omega (arith, length-drop n s)

long : (ip : GoString) → (length ip == 16 && has_prefix v4_in_v6 ip) ≡ true → length ip ≡ 16
long ip h = ground (arith, h)

-- `To4` gives four bytes.
to4-four : (x ip : GoString) → to4 x ≡ some ip → length ip ≡ 4
unfolding to4
to4-four x ip h = elim (Bool-cases (length x == 4)) [
  | inl t ↦ ap length (sym (some-injective (rw t at h))) ∙ ground (arith, t)
  | inr f ↦ mapped (Bool-cases (length x == 16 && has_prefix v4_in_v6 x)) f
]
  where
    mapped :
        ((length x == 16 && has_prefix v4_in_v6 x) ≡ true)
          ⊎ ((length x == 16 && has_prefix v4_in_v6 x) ≡ false)
        → (length x == 4) ≡ false
        → length ip ≡ 4
    mapped (inl t) f =
        ap length (sym (some-injective (rw (f, t) at h)))
        ∙ length-drop 12 x
        ∙ ap (λ n. n - 12) (long x t)
    mapped (inr t) f = absurd (cc (rw (f, t) at h))

-- What stands behind a text that is accepted.
Accepted : GoString → GoString → ℕ → Type 0
Accepted s ip size =
    ((n : IpNet) × (parse_cidr s ≡ some n) × (to4 n.ip ≡ some ip) × (n.ones ≡ size))
    ⊎ ((x : GoString) × (to4 x ≡ some ip) × (size ≡ 32))

parse_ip_size_cidr-Accepted :
    (s ip : GoString) (size : ℕ) → parse_ip_size_cidr s ≡ ok (ip, size) → Accepted s ip size
unfolding parse_ip_size_cidr Accepted
parse_ip_size_cidr-Accepted s ip size h = by_cidr (parse_cidr s) refl
  where
    by_net :
        (n : IpNet)
        → parse_cidr s ≡ some n
        → (o : Option GoString) → to4 n.ip ≡ o
        → Accepted s ip size
    by_net n q none e = absurd (cc (rw (parse_ip_size_cidr, q, e) at h))
    by_net n q (some y) e =
        let same = ok-injective (rw (parse_ip_size_cidr, q, e) at h) in
        inl (n, q, e ∙ ap (λ t. some t.0) same, ap (λ t. t.1) same)

    by_long :
        (x : GoString)
        → parse_cidr s ≡ none
        → parse_ip s ≡ some x
        → (o : Option GoString) → to4 x ≡ o
        → Accepted s ip size
    by_long x q r none e = absurd (cc (rw (parse_ip_size_cidr, q, r, e) at h))
    by_long x q r (some y) e =
        let same = ok-injective (rw (parse_ip_size_cidr, q, r, e) at h) in
        inr (x, e ∙ ap (λ t. some t.0) same, sym (ap (λ t. t.1) same))

    by_ip : parse_cidr s ≡ none → (o : Option GoString) → parse_ip s ≡ o → Accepted s ip size
    by_ip q none r = absurd (cc (rw (parse_ip_size_cidr, q, r) at h))
    by_ip q (some x) r = by_long x q r (to4 x) refl

    by_cidr : (o : Option IpNet) → parse_cidr s ≡ o → Accepted s ip size
    by_cidr none q = by_ip q (parse_ip s) refl
    by_cidr (some n) q = by_net n q (to4 n.ip) refl

pub parse_ip_size_cidr-four :
    (s ip : GoString) (size : ℕ) → parse_ip_size_cidr s ≡ ok (ip, size) → length ip ≡ 4
unfolding Accepted
parse_ip_size_cidr-four s ip size h = elim (parse_ip_size_cidr-Accepted s ip size h) [
  | inl a ↦ to4-four a.0.ip ip a.2
  | inr a ↦ to4-four a.0 ip a.1
]

-- A text with no colon that `parseIPSizeCIDR` accepts gives four bytes and a size of 32 at most.
pub parse_ip_size_cidr-IsIpv4 :
    (s ip : GoString) (size : ℕ)
    → free b':' s ≡ true
    → parse_ip_size_cidr s ≡ ok (ip, size)
    → (length ip ≡ 4) × (size ≤ 32)
unfolding Accepted
parse_ip_size_cidr-IsIpv4 s ip size h e = (
  parse_ip_size_cidr-four s ip size e,
  elim (parse_ip_size_cidr-Accepted s ip size e) [
    | inl a ↦ omega (arith, parse_cidr-size s a.0 h a.1, a.3)
    | inr a ↦ omega (arith, a.2)
  ],
)
