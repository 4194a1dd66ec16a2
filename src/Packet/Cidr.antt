-- ===== src/Packet/Cidr.antt =====
-- connectivity-exporter/packet/bpf.go: `parseIPSizeCIDR` and `initCIDRMap`.
pub mod Accepted
pub mod Bounded
pub mod Listed
use connectivity_exporter.Prelude.{ℕ, ◌+◌, ◌*◌, ◌^◌, List, [], ◌∷◌, Option, none, some}
use connectivity_exporter.Prelude.GoString.{GoString}
use connectivity_exporter.Prelude.Results.{
  Error, Outcome, ok, err, panic, invalid_cidr_or_ip, only_ipv4,
}
use connectivity_exporter.Packet.Trie.{CidrKey, LpmTrie}
use connectivity_exporter.Packet.Net.{parse_ip, to4}
use connectivity_exporter.Packet.Net.Networks.{IpNet, parse_cidr}

-- The IP and the size of its mask.
abbrev pub Range : Type 0
Range = GoString × ℕ

unfoldable pub parse_ip_size_cidr : GoString → Outcome Range
unfolding parse_cidr to4
parse_ip_size_cidr h = elim (parse_cidr h) [
  | none ↦ elim (parse_ip h) [
    | none ↦ err invalid_cidr_or_ip
    | some long ↦ elim (to4 long) [ none ↦ err invalid_cidr_or_ip | some ip ↦ ok (ip, 32) ]
  ]
  | some n ↦ elim (to4 n.ip) [ none ↦ err only_ipv4 | some ip ↦ ok (ip, n.ones) ]
]

-- `*(*C.uint)(&ip[0])` on a little-endian machine; `&ip[0]` panics on no bytes.
unfoldable pub uint_at : GoString → Outcome ℕ
uint_at (a ∷ b ∷ c ∷ d ∷ []) = ok (a + b * 2 ^ 8 + c * 2 ^ 16 + d * 2 ^ 24)
uint_at _ = panic

module _ (cidrs : LpmTrie) where
  open cidrs use {Map}

  -- The loop over the set's items: the map, and the error that ends it. A panic has no map.
  unfoldable pub init_cidr_map : List GoString → Map → Outcome (Map × Option Error)
  unfolding parse_ip_size_cidr uint_at
  init_cidr_map [] m = ok (m, none)
  init_cidr_map (h ∷ items) m = elim (parse_ip_size_cidr h) [
    | panic ↦ panic
    | err e ↦ ok (m, some e)
    | ok (ip, size) ↦ elim (uint_at ip) [
      | panic ↦ panic
      | err e ↦ err e
      | ok n ↦
          let (m1, e) = cidrs.put m (record { prefixlen = size; ip = n }) 0 in
          elim e [ some x ↦ ok (m1, some x) | none ↦ init_cidr_map items m1 ]
    ]
  ]
