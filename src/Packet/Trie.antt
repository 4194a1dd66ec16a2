-- ===== src/Packet/Trie.antt =====
-- The keys of `initCIDRMap` of connectivity-exporter/packet/bpf.go, and the trie of the eBPF library
-- that it puts them in: a map of prefixes, in which an address finds the longest that it has.
pub mod Found
use connectivity_exporter.Prelude.{
  ℕ, zero, suc, ◌+◌, ◌-◌, ◌*◌, ◌/◌, ◌%◌, ◌^◌, ◌≤◌, ◌≡◌, Bool, ◌&&◌, ◌==◌, Option, none, some,
  if◌then◌else◌,
}
use connectivity_exporter.Prelude.Results.{Error}

-- `C.struct_cidr_key`
pub record CidrKey : Type 0 where
  pub prefixlen : ℕ
  pub ip : ℕ

-- The four bytes of a number on a little-endian machine, as they stand in memory.
abbrev pub big_endian : ℕ → ℕ
big_endian ip =
    ip % 2 ^ 8 * 2 ^ 24
    + ip / 2 ^ 8 % 2 ^ 8 * 2 ^ 16
    + ip / 2 ^ 16 % 2 ^ 8 * 2 ^ 8
    + ip / 2 ^ 24 % 2 ^ 8

-- The bits of a key that count, from the first byte on.
abbrev pub prefix_of : CidrKey → ℕ
prefix_of k = big_endian k.ip / 2 ^ (32 - k.prefixlen)

abbrev pub same_prefix : CidrKey → CidrKey → Bool
same_prefix j k = (j.prefixlen == k.prefixlen) && (prefix_of j == prefix_of k)

-- The first value on the way down from `n - 1`.
unfoldable pub longest : (ℕ → Option ℕ) → ℕ → Option ℕ
longest f zero = none
longest f (suc n) = let rest = longest f n in elim (f n) [ none ↦ rest | some v ↦ some v ]

-- A map of type BPF_MAP_TYPE_LPM_TRIE, with its documented behaviour.
pub record LpmTrie : Type 1 where
  pub Map : Type 0
  pub put : Map → CidrKey → ℕ → Map × Option Error
  -- the value of the node with the prefix of a key
  pub stored : Map → CidrKey → Option ℕ
  -- what an address finds
  pub lookup : Map → ℕ → Option ℕ
  -- A prefix longer than an address is refused.
  pub put-size : (m : Map) (k : CidrKey) (v : ℕ) → (put m k v).1 ≡ none → k.prefixlen ≤ 32
  pub stored-put :
      (m : Map) (k j : CidrKey) (v : ℕ)
      → (put m k v).1 ≡ none
      → stored (put m k v).0 j ≡ (if same_prefix k j then some v else stored m j)
  pub lookup-longest :
      (m : Map) (a : ℕ) → lookup m a ≡ longest (λ n. stored m (record { prefixlen = n; ip = a })) 33
