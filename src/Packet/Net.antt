-- ===== src/Packet/Net.antt =====
-- What connectivity-exporter/packet/bpf.go uses of Go's package net, as of Go 1.18.1, which the
-- Dockerfile builds with: `ParseIP`, `ParseCIDR`, `IP.To4` and `IPMask.Size`. An address is a list
-- of 16 bytes; an IPv4 address has the prefix of `v4_in_v6`.
pub mod Networks
pub mod Quads
pub mod Scans
pub mod Masked
pub mod Colons
pub mod Sizes
use connectivity_exporter.Prelude.{
  ℕ, zero, suc, ◌+◌, ◌-◌, ◌*◌, ◌/◌, ◌%◌, ◌^◌, Bool, true, false, ◌&&◌, ◌||◌, not, List, [], ◌∷◌,
  ◌++◌, Option, none, some, leb, ltb, ◌==◌, if◌then◌else◌, length, take, drop, replicate,
}
use connectivity_exporter.Prelude.GoString.{GoString}

infixl 5 ◌>>=◌
abbrev ◌>>=◌ : {X Y : Type 0} → Option X → (X → Option Y) → Option Y
call >>= after = elim call [ none ↦ none | some x ↦ after x ]

abbrev pub guard : {X : Type 0} → Bool → Option X → Option X
guard b rest = elim b [ true ↦ rest | false ↦ none ]

-- A number, how many bytes it takes, and what comes after it.
abbrev pub Parsed : Type 0
Parsed = ℕ × ℕ × GoString

abbrev pub big : ℕ
big = 0xffffff

abbrev pub is_digit : ℕ → Bool
is_digit b = leb 48 b && leb b 57

unfoldable pub dtoi_from : ℕ → ℕ → GoString → Option Parsed
dtoi_from n i [] = guard (not (i == 0)) (some (n, i, []))
dtoi_from n i (b ∷ bs) =
    let rest = dtoi_from (n * 10 + (b - 48)) (i + 1) bs in
    if is_digit b
    then guard (ltb (n * 10 + (b - 48)) big) rest
    else guard (not (i == 0)) (some (n, i, b ∷ bs))

abbrev pub dtoi : GoString → Option Parsed
dtoi s = dtoi_from 0 0 s

-- The value of a hexadecimal digit.
unfoldable pub hex_digit : ℕ → Option ℕ
hex_digit b =
    if is_digit b
    then some (b - 48)
    else if leb b'a' b && leb b b'f'
    then some (b - b'a' + 10)
    else if leb b'A' b && leb b b'F'
    then some (b - b'A' + 10)
    else none

unfoldable pub xtoi_from : ℕ → ℕ → GoString → Option Parsed
xtoi_from n i [] = guard (not (i == 0)) (some (n, i, []))
xtoi_from n i (b ∷ bs) = elim (hex_digit b) [
  | none ↦ guard (not (i == 0)) (some (n, i, b ∷ bs))
  | some d ↦ guard (ltb (n * 16 + d) big) (xtoi_from (n * 16 + d) (i + 1) bs)
]

abbrev pub xtoi : GoString → Option Parsed
xtoi s = xtoi_from 0 0 s

abbrev pub starts_with : ℕ → GoString → Bool
starts_with c [] = false
starts_with c (b ∷ bs) = b == c

-- One component of an IPv4 address: below 256, with no leading zero.
unfoldable pub octet : GoString → Option (ℕ × GoString)
octet s = do
  (n, c, rest) ← dtoi s
  guard (leb n 255) (guard (not (ltb 1 c && starts_with b'0' s)) (some (n, rest)))

unfoldable pub dot : GoString → Option GoString
dot [] = none
dot (b ∷ bs) = if b == b'.' then some bs else none

abbrev pub v4_in_v6 : GoString
v4_in_v6 = 0 ∷ 0 ∷ 0 ∷ 0 ∷ 0 ∷ 0 ∷ 0 ∷ 0 ∷ 0 ∷ 0 ∷ 255 ∷ 255 ∷ []

abbrev pub is_empty : GoString → Bool
is_empty [] = true
is_empty (b ∷ bs) = false

unfoldable pub parse_ipv4 : GoString → Option GoString
unfolding octet dot
parse_ipv4 s = do
  (a, s1) ← octet s
  s2 ← dot s1
  (b, s3) ← octet s2
  s4 ← dot s3
  (c, s5) ← octet s4
  s6 ← dot s5
  (d, s7) ← octet s6
  guard (is_empty s7) (some (v4_in_v6 ++ (a ∷ b ∷ c ∷ d ∷ [])))

-- The bytes so far, where the ellipsis stands in them, and what is left to read.
abbrev pub Six : Type 0
Six = GoString × Option ℕ × GoString

-- The rest of an IPv6 address is an IPv4 address.
unfoldable pub trailing_ipv4 : GoString → Option ℕ → GoString → Option Six
unfolding parse_ipv4
trailing_ipv4 ip ellipsis s =
    let rest : Option Six = elim (parse_ipv4 s) [
      | none ↦ none
      | some ip4 ↦ some (ip ++ drop 12 ip4, ellipsis, [])
    ] in
    guard (leb (length ip + 4) 16)
      (elim ellipsis [ some e ↦ rest | none ↦ guard (length ip == 12) rest ])

-- The loop of `parseIPv6`, with `left` groups to go.
unfoldable pub groups : ℕ → GoString → Option ℕ → GoString → Option Six
unfolding trailing_ipv4
groups zero ip ellipsis s = some (ip, ellipsis, s)
groups (suc left) ip ellipsis s = do
  (n, c, rest) ← xtoi s
  let ip1 = ip ++ (n / 256 ∷ n % 256 ∷ [])
  guard (leb n 0xffff) (
      if starts_with b'.' rest then trailing_ipv4 ip ellipsis s else elim rest [
        | [] ↦ some (ip1, ellipsis, [])
        | b ∷ bs ↦ guard (b == b':') (elim bs [
          | [] ↦ none
          | d ∷ ds ↦
              if d == b':'
              then elim ellipsis [
                | some e ↦ none
                | none ↦ elim ds [
                  | [] ↦ some (ip1, some (length ip + 2), [])
                  | x ∷ xs ↦ groups left ip1 (some (length ip + 2)) (x ∷ xs)
                ]
              ]
              else groups left ip1 ellipsis (d ∷ ds)
        ])
      ])

-- The end of `parseIPv6`: the ellipsis stands for as many zeros as are missing.
unfoldable pub expand : Six → Option GoString
expand (ip, ellipsis, s) = guard (is_empty s) (
    if ltb (length ip) 16
    then elim ellipsis [
      | none ↦ none
      | some e ↦ some (take e ip ++ (replicate (16 - length ip) 0 ++ drop e ip))
    ]
    else elim ellipsis [ none ↦ some ip | some e ↦ none ])

unfoldable pub parse_ipv6 : GoString → Option GoString
unfolding groups expand
parse_ipv6 s =
    let leading = starts_with b':' s && starts_with b':' (drop 1 s) in
    if leading
    then (if is_empty (drop 2 s)
        then some (replicate 16 0)
        else do six ← groups 8 [] (some 0) (drop 2 s); expand six)
    else do six ← groups 8 [] none s; expand six

-- The first dot or colon says which.
unfoldable pub parse_ip_by : GoString → GoString → Option GoString
unfolding parse_ipv4 parse_ipv6
parse_ip_by s [] = none
parse_ip_by s (b ∷ bs) =
    let rest = parse_ip_by s bs in
    if b == b'.' then parse_ipv4 s else if b == b':' then parse_ipv6 s else rest

abbrev pub parse_ip : GoString → Option GoString
parse_ip s = parse_ip_by s s

unfoldable pub has_prefix : GoString → GoString → Bool
has_prefix [] ip = true
has_prefix (p ∷ ps) [] = false
has_prefix (p ∷ ps) (b ∷ bs) = let rest = has_prefix ps bs in p == b && rest

-- `ip.To4()`
unfoldable pub to4 : GoString → Option GoString
unfolding has_prefix
to4 ip =
    if length ip == 4
    then some ip
    else guard (length ip == 16 && has_prefix v4_in_v6 ip) (some (drop 12 ip))
