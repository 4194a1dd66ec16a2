-- ===== src/Packet/Net/Sizes.antt =====
-- The size of the mask of a network.
use connectivity_exporter.Prelude.{
  ℕ, ◌≤◌, ◌≡◌, refl, ap, arith, Bool, true, false, ◌&&◌, Option, none, some, leb,
}
use connectivity_exporter.Prelude.GoString.{GoString}
use connectivity_exporter.Packet.Net.{Parsed, guard, is_empty, dtoi, parse_ipv4}
use connectivity_exporter.Packet.Net.Networks.{IpNet, parse_cidr, cut_slash, parse_ones, network}
use connectivity_exporter.Packet.Net.Quads.{guard-some, some-injective}
use connectivity_exporter.Packet.Net.Scans.{free}
use connectivity_exporter.Packet.Net.Colons.{parse_ipv6-free, cut_slash-addr}

guard-true : {X : Type 0} (b : Bool) (o : Option X) {x : X} → guard b o ≡ some x → b ≡ true
guard-true true o h = refl
guard-true false o h = absurd (cc h)

parse_ones-size : (text : GoString) (bits k : ℕ) → parse_ones bits text ≡ some k → k ≤ bits
unfolding parse_ones
parse_ones-size text bits k h = by_number (dtoi text) refl
  where
    by_number : (o : Option Parsed) → dtoi text ≡ o → k ≤ bits
    by_number none q = absurd (cc (rw (parse_ones, q) at h))
    by_number (some (n, c, rest)) q =
        let fits = guard-true (is_empty rest && leb n bits) (some n) (rw (parse_ones, q) at h) in
        let same : n ≡ k = some-injective (guard-some _ _ (rw (parse_ones, q) at h)) in
        ground (arith, fits, same)

-- The size of a network of a mask is at most its bits.
network-size :
    (text ip : GoString) (bits : ℕ) (n : IpNet) → network text bits ip ≡ some n → n.ones ≤ bits
unfolding network
network-size text ip bits n h = by_ones (parse_ones bits text) refl
  where
    by_ones : (o : Option ℕ) → parse_ones bits text ≡ o → n.ones ≤ bits
    by_ones none q = absurd (cc (rw (network, q) at h))
    by_ones (some k) q =
        let same : k ≡ n.ones = ap (λ t. t.ones) (some-injective (rw (network, q) at h)) in
        omega (arith, same, parse_ones-size text bits k q)

pub parse_cidr-size :
    (s : GoString) (n : IpNet) → free b':' s ≡ true → parse_cidr s ≡ some n → n.ones ≤ 32
unfolding parse_cidr
parse_cidr-size s n h e = by_cut (cut_slash s) refl
  where
    by_ipv4 :
        (addr text : GoString)
        → cut_slash s ≡ some (addr, text)
        → (o : Option GoString) → parse_ipv4 addr ≡ o
        → n.ones ≤ 32
    by_ipv4 addr text q none r = absurd (
        cc (rw (parse_cidr, q, r, parse_ipv6-free addr (cut_slash-addr b':' s addr text h q)) at e))
    by_ipv4 addr text q (some ip) r = network-size text ip 32 n (rw (parse_cidr, q, r) at e)

    by_cut : (o : Option (GoString × GoString)) → cut_slash s ≡ o → n.ones ≤ 32
    by_cut none q = absurd (cc (rw (parse_cidr, q) at e))
    by_cut (some (addr, text)) q = by_ipv4 addr text q (parse_ipv4 addr) refl
