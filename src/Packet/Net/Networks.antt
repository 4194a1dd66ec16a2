-- ===== src/Packet/Net/Networks.antt =====
-- `ParseCIDR` and `IP.Mask` of Go's package net: networks.
use Prim.Native.Nat.{bit_and}
use connectivity_exporter.Prelude.{
  ℕ, ◌-◌, ◌/◌, ◌^◌, ◌&&◌, [], ◌∷◌, Option, none, some, leb, ◌==◌, if◌then◌else◌, drop,
}
use connectivity_exporter.Prelude.GoString.{GoString}
use connectivity_exporter.Packet.Net.{
  dtoi, guard, is_empty, parse_ipv4, parse_ipv6, has_prefix, v4_in_v6,
}

-- `&net.IPNet{IP: ip.Mask(m), Mask: m}` for a mask of that many ones, its `Size`.
pub record IpNet : Type 0 where
  pub ip : GoString
  pub ones : ℕ

-- A byte of the mask, with at most eight ones.
abbrev pub mask_byte : ℕ → ℕ
mask_byte ones = if leb 8 ones then 0xff else 0xff - 0xff / 2 ^ ones

-- Each byte with the mask of the ones that are left.
unfoldable pub apply_mask : ℕ → GoString → GoString
apply_mask ones [] = []
apply_mask ones (b ∷ bs) = bit_and b (mask_byte ones) ∷ apply_mask (ones - 8) bs

-- `ip.Mask(m)` for a mask of `bits` bits, of an IP of 16 bytes.
unfoldable pub mask : ℕ → ℕ → GoString → GoString
unfolding apply_mask has_prefix
mask ones bits ip =
    apply_mask ones (if bits == 32 && has_prefix v4_in_v6 ip then drop 12 ip else ip)

-- What stands before the first slash, and after it.
unfoldable pub cut_slash : GoString → Option (GoString × GoString)
cut_slash [] = none
cut_slash (b ∷ bs) =
    let rest : Option (GoString × GoString) = elim (cut_slash bs) [
      | none ↦ none
      | some (addr, ones) ↦ some (b ∷ addr, ones)
    ] in
    if b == b'/' then some ([], bs) else rest

-- The number of ones, all of the text after the slash.
unfoldable pub parse_ones : ℕ → GoString → Option ℕ
parse_ones bits text = elim (dtoi text) [
  | none ↦ none
  | some (n, i, rest) ↦ guard (is_empty rest && leb n bits) (some n)
]

unfoldable pub network : GoString → ℕ → GoString → Option IpNet
unfolding parse_ones mask
network text bits ip = elim (parse_ones bits text) [
  | none ↦ none
  | some n ↦ some (record { ip = mask n bits ip; ones = n })
]

unfoldable pub parse_cidr : GoString → Option IpNet
unfolding cut_slash network
parse_cidr s = elim (cut_slash s) [
  | none ↦ none
  | some (addr, text) ↦ elim (parse_ipv4 addr) [
    | some ip ↦ network text 32 ip
    | none ↦ elim (parse_ipv6 addr) [ none ↦ none | some ip ↦ network text 128 ip ]
  ]
]
