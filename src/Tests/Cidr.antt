-- ===== src/Tests/Cidr.antt =====
-- Runs of `parseIPSizeCIDR` and `initCIDRMap`.
use connectivity_exporter.Prelude.{
  ℕ, ◌≡◌, ◌≤◌, refl, arith, List, [], ◌∷◌, ◌++◌, Option, none, true, length, Bool, false, some, leb,
  if◌then◌else◌,
}
use connectivity_exporter.Prelude.GoString.{bytes}
use connectivity_exporter.Prelude.Results.{ok, err, invalid_cidr_or_ip, only_ipv4, Error, external}
use connectivity_exporter.Packet.Bytes.Addresses.{decimal, ip_string}
use connectivity_exporter.Packet.Net.Scans.{free}
use connectivity_exporter.Packet.Cidr.Accepted.{parse_ip_size_cidr-ip_string}
use connectivity_exporter.Packet.Cidr.Bounded.{parse_ip_size_cidr-IsIpv4}
use connectivity_exporter.Packet.Cidr.Listed.{init_cidr_map-returns}
use connectivity_exporter.Packet.Net.{
  parse_ipv4, parse_ipv6, groups, expand, trailing_ipv4, octet, dot, dtoi_from, xtoi_from,
  hex_digit, to4, has_prefix, parse_ip_by,
}
use connectivity_exporter.Packet.Net.Networks.{
  parse_cidr, network, mask, apply_mask, cut_slash, parse_ones,
}
use connectivity_exporter.Packet.Trie.{CidrKey, LpmTrie, same_prefix, longest}
use connectivity_exporter.Packet.Cidr.{parse_ip_size_cidr, uint_at, init_cidr_map}

parses_address : parse_ip_size_cidr (bytes "10.0.0.17") ≡ ok (10 ∷ 0 ∷ 0 ∷ 17 ∷ [], 32)
unfolding parse_ip_size_cidr parse_cidr parse_ipv4 octet dot dtoi_from to4 has_prefix parse_ip_by
    cut_slash
parses_address = refl

parses_network : parse_ip_size_cidr (bytes "10.255.19.17/12") ≡ ok (10 ∷ 240 ∷ 0 ∷ 0 ∷ [], 12)
unfolding parse_ip_size_cidr parse_cidr parse_ipv4 octet dot dtoi_from to4 has_prefix parse_ip_by
    cut_slash network mask apply_mask parse_ones
parses_network = refl

refuses_leading_zero : parse_ip_size_cidr (bytes "10.0.0.07") ≡ err invalid_cidr_or_ip
unfolding parse_ip_size_cidr parse_cidr parse_ipv4 octet dot dtoi_from to4 has_prefix parse_ip_by
    cut_slash
refuses_leading_zero = refl

refuses_ipv6 : parse_ip_size_cidr (bytes "fe80::1/64") ≡ err only_ipv4
unfolding parse_ip_size_cidr parse_cidr parse_ipv4 octet dot dtoi_from to4 has_prefix parse_ip_by
    cut_slash network mask apply_mask parse_ones parse_ipv6 groups expand trailing_ipv4 xtoi_from
    hex_digit
refuses_ipv6 = refl

-- A mapped address takes a size above 32.
accepts_mapped : parse_ip_size_cidr (bytes "::ffff:1.2.3.4/120") ≡ ok (1 ∷ 2 ∷ 3 ∷ 0 ∷ [], 120)
unfolding parse_ip_size_cidr parse_cidr parse_ipv4 octet dot dtoi_from to4 has_prefix parse_ip_by
    cut_slash network mask apply_mask parse_ones parse_ipv6 groups expand trailing_ipv4 xtoi_from
    hex_digit
accepts_mapped = refl

abbrev host : List ℕ
host = bytes "10.255.19.17"

host_text : ip_string (10 ∷ 255 ∷ 19 ∷ 17 ∷ []) ≡ ok host
unfolding ip_string decimal
host_text = refl

parse_ip_size_cidr-ip_string_example :
    (parse_ip_size_cidr host ≡ ok (10 ∷ 255 ∷ 19 ∷ 17 ∷ [], 32))
    × (parse_ip_size_cidr (host ++ (b'/' ∷ decimal 12)) ≡ ok (10 ∷ 240 ∷ 0 ∷ 0 ∷ [], 12))
parse_ip_size_cidr-ip_string_example =
    parse_ip_size_cidr-ip_string 10 255 19 17 (omega arith) (omega arith) (omega arith)
      (omega arith) 12 host (omega arith) host_text

host_free : free b':' (bytes "10.255.19.17/12") ≡ true
unfolding free
host_free = refl

abbrev network_ip : List ℕ
network_ip = 10 ∷ 240 ∷ 0 ∷ 0 ∷ []

parse_ip_size_cidr-IsIpv4_example : (length network_ip ≡ 4) × (12 ≤ 32)
parse_ip_size_cidr-IsIpv4_example =
    parse_ip_size_cidr-IsIpv4 (bytes "10.255.19.17/12") network_ip 12 host_free parses_network

abbrev pub put_if : Bool → (CidrKey → Option ℕ) → CidrKey → ℕ → (CidrKey → Option ℕ) × Option Error
put_if true m k v = (λ j. if same_prefix k j then some v else m j, none)
put_if false m k v = (m, some (external 22))

pub stored-put_if :
    (fits : Bool) (m : CidrKey → Option ℕ) (k j : CidrKey) (v : ℕ)
    → (put_if fits m k v).1 ≡ none
    → (put_if fits m k v).0 j ≡ (if same_prefix k j then some v else m j)
stored-put_if true m k j v e = refl
stored-put_if false m k j v e = absurd (cc e)

pub put_if-size :
    (fits : Bool) (m : CidrKey → Option ℕ) (k : CidrKey) (v : ℕ)
    → leb k.prefixlen 32 ≡ fits
    → (put_if fits m k v).1 ≡ none
    → k.prefixlen ≤ 32
put_if-size true m k v q e = ground (arith, q)
put_if-size false m k v q e = absurd (cc e)

-- A trie as a function from keys.
abbrev pub cidr_map : LpmTrie
cidr_map = record {
  Map = CidrKey → Option ℕ;
  put = λ m k v. put_if (leb k.prefixlen 32) m k v;
  stored = λ m k. m k;
  lookup = λ m a. longest (λ n. m (record { prefixlen = n; ip = a })) 33;
  put-size = λ m k v e. put_if-size (leb k.prefixlen 32) m k v refl e;
  stored-put = λ m k j v e. stored-put_if (leb k.prefixlen 32) m k j v e;
  lookup-longest = λ m a. refl;
}

abbrev pub no_prefix : cidr_map.Map
no_prefix k = none

abbrev pub items : List (List ℕ)
items = bytes "10.255.19.17/12" ∷ []

abbrev pub ten : CidrKey
ten = record { prefixlen = 12; ip = 61450 }

init_cidr_map-returns_example :
    (m1 : cidr_map.Map) × (e : Option Error) × (init_cidr_map cidr_map items no_prefix ≡ ok (m1, e))
init_cidr_map-returns_example = init_cidr_map-returns cidr_map items no_prefix

pub items_put : init_cidr_map cidr_map items no_prefix ≡ ok ((cidr_map.put no_prefix ten 0).0, none)
unfolding init_cidr_map uint_at
items_put = rw (init_cidr_map, parses_network) refl
