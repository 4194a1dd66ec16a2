-- ===== src/Packet/Cidr/Listed.antt =====
-- What `initCIDRMap` puts.
use connectivity_exporter.Prelude.{
  ℕ, ◌≡◌, ◌≢◌, ◌⊎◌, inl, inr, refl, sym, ap, ◌∙◌, arith, Bool, true, false, ◌||◌, List, [], ◌∷◌,
  Option, none, some, if◌then◌else◌, length,
}
use connectivity_exporter.Prelude.GoString.{GoString}
use connectivity_exporter.Prelude.Results.{Error, Outcome, ok, err, panic, ok-injective}
use connectivity_exporter.Packet.Trie.{CidrKey, LpmTrie, same_prefix}
use connectivity_exporter.Packet.Trie.Found.{is_some, contains, lookup-put}
use connectivity_exporter.Packet.Net.{to4, parse_ip}
use connectivity_exporter.Packet.Net.Networks.{IpNet, parse_cidr}
use connectivity_exporter.Packet.Cidr.{Range, parse_ip_size_cidr, uint_at, init_cidr_map}
use connectivity_exporter.Packet.Cidr.Bounded.{parse_ip_size_cidr-four}

-- The key of an item.
abbrev pub key_of : Range → Option CidrKey
key_of (ip, size) = elim (uint_at ip) [
  | panic ↦ none
  | err e ↦ none
  | ok n ↦ some (record { prefixlen = size; ip = n })
]

abbrev pub item_key : GoString → Option CidrKey
item_key h = elim (parse_ip_size_cidr h) [ panic ↦ none | err e ↦ none | ok r ↦ key_of r ]

-- Some item of the list stands for a key with this prefix.
abbrev pub is_listed : CidrKey → List GoString → Bool
is_listed k [] = false
is_listed k (h ∷ items) =
    elim (item_key h) [ none ↦ false | some j ↦ same_prefix j k ] || is_listed k items

-- The network of some item has an address.
abbrev pub is_covered : ℕ → List GoString → Bool
is_covered a [] = false
is_covered a (h ∷ items) =
    elim (item_key h) [ none ↦ false | some j ↦ contains j a ] || is_covered a items

-- Each item stands for a key.
abbrev pub all_keys : List GoString → Bool
all_keys [] = true
all_keys (h ∷ items) = elim (item_key h) [ none ↦ false | some j ↦ all_keys items ]

-- Four bytes are read as a number.
uint_at-four : (ip : GoString) → length ip ≡ 4 → (n : ℕ) × (uint_at ip ≡ ok n)
unfolding uint_at
uint_at-four [] e = absurd (omega (arith, e))
uint_at-four (a ∷ []) e = absurd (omega (arith, e))
uint_at-four (a ∷ b ∷ []) e = absurd (omega (arith, e))
uint_at-four (a ∷ b ∷ c ∷ []) e = absurd (omega (arith, e))
uint_at-four (a ∷ b ∷ c ∷ d ∷ []) e = (_, refl)
uint_at-four (a ∷ b ∷ c ∷ d ∷ x ∷ xs) e = absurd (omega (arith, e))

-- No text makes `parseIPSizeCIDR` panic.
parse_ip_size_cidr-returns : (s : GoString) → parse_ip_size_cidr s ≢ panic
unfolding parse_ip_size_cidr
parse_ip_size_cidr-returns s e = by_cidr (parse_cidr s) refl
  where
    by_net : (n : IpNet) → parse_cidr s ≡ some n → (o : Option GoString) → to4 n.ip ≡ o → ⊥
    by_net n q none r = cc (rw (parse_ip_size_cidr, q, r) at e)
    by_net n q (some ip) r = cc (rw (parse_ip_size_cidr, q, r) at e)

    by_long :
        (x : GoString)
        → parse_cidr s ≡ none
        → parse_ip s ≡ some x
        → (o : Option GoString) → to4 x ≡ o
        → ⊥
    by_long x q p none r = cc (rw (parse_ip_size_cidr, q, p, r) at e)
    by_long x q p (some ip) r = cc (rw (parse_ip_size_cidr, q, p, r) at e)

    by_ip : parse_cidr s ≡ none → (o : Option GoString) → parse_ip s ≡ o → ⊥
    by_ip q none p = cc (rw (parse_ip_size_cidr, q, p) at e)
    by_ip q (some x) p = by_long x q p (to4 x) refl

    by_cidr : (o : Option IpNet) → parse_cidr s ≡ o → ⊥
    by_cidr none q = by_ip q (parse_ip s) refl
    by_cidr (some n) q = by_net n q (to4 n.ip) refl

module _ (cidrs : LpmTrie) where
  -- One item of the loop: it is refused, or its key is put, with or without an error.
  Step : GoString → List GoString → cidrs.Map → Type 0
  Step h items m =
      ((e : Error) × (init_cidr_map cidrs (h ∷ items) m ≡ ok (m, some e)))
      ⊎ ((k : CidrKey) × (e : Error) × (init_cidr_map cidrs (h ∷ items) m
            ≡ ok ((cidrs.put m k 0).0, some e)))
      ⊎ ((k : CidrKey) × (item_key h ≡ some k)
          × ((cidrs.put m k 0).1 ≡ none)
          × (init_cidr_map cidrs (h ∷ items) m ≡ init_cidr_map cidrs items (cidrs.put m k 0).0))

  init_cidr_map-Step : (h : GoString) (items : List GoString) (m : cidrs.Map) → Step h items m
  unfolding Step init_cidr_map
  init_cidr_map-Step h items m = by_range (parse_ip_size_cidr h) refl
    where
      by_put :
          (ip : GoString) (size n : ℕ)
          → parse_ip_size_cidr h ≡ ok (ip, size)
          → uint_at ip ≡ ok n
          → (e : Option Error) → (cidrs.put m (record { prefixlen = size; ip = n }) 0).1 ≡ e
          → Step h items m
      by_put ip size n q r none e = inr (
          inr (
            record { prefixlen = size; ip = n },
            rw (item_key, q, key_of, r) refl,
            e,
            rw (init_cidr_map, q, r, e) refl,
          ))
      by_put ip size n q r (some x) e =
          inr (inl (record { prefixlen = size; ip = n }, x, rw (init_cidr_map, q, r, e) refl))

      by_range : (o : Outcome Range) → parse_ip_size_cidr h ≡ o → Step h items m
      by_range panic q = absurd (parse_ip_size_cidr-returns h q)
      by_range (err e) q = inl (e, rw (init_cidr_map, q) refl)
      by_range (ok (ip, size)) q =
          let (n, r) = uint_at-four ip (parse_ip_size_cidr-four h ip size q) in
          by_put ip size n q r (cidrs.put m (record { prefixlen = size; ip = n }) 0).1 refl

  -- `initCIDRMap` returns on any items, with or without an error: it reads within the four bytes of
  -- an address.
  pub init_cidr_map-returns :
      (items : List GoString) (m : cidrs.Map)
      → (m1 : cidrs.Map) × (e : Option Error) × (init_cidr_map cidrs items m ≡ ok (m1, e))
  unfolding init_cidr_map Step
  init_cidr_map-returns [] m = (m, none, refl)
  init_cidr_map-returns (h ∷ items) m = elim (init_cidr_map-Step h items m) [
    | inl a ↦ (m, some a.0, a.1)
    | inr (inl a) ↦ ((cidrs.put m a.0 0).0, some a.1, a.2)
    | inr (inr a) ↦
        let (m1, e, later) = init_cidr_map-returns items (cidrs.put m a.0 0).0 in
        (m1, e, a.3 ∙ later)
  ]

  listed_then :
      (h rest : Bool) (before after : Option ℕ)
      → after ≡ (if h then some 0 else before)
      → (if rest then some 0 else after) ≡ (if h || rest then some 0 else before)
  listed_then true true before after e = refl
  listed_then true false before after e = e
  listed_then false true before after e = refl
  listed_then false false before after e = e

  covered_then :
      (h rest before after : Bool)
      → after ≡ (h || before)
      → (rest || after) ≡ ((h || rest) || before)
  covered_then true true before after e = refl
  covered_then true false before after e = e
  covered_then false true before after e = refl
  covered_then false false before after e = e

  no_error :
      {m m1 : cidrs.Map} {e : Error}
      → ◌≢◌ {A = Outcome (cidrs.Map × Option Error)} (ok (m1, none)) (ok (m, some e))
  no_error h = cc (ap (λ t. t.1) (ok-injective h))

  -- When `initCIDRMap` succeeds, each item stood for a key, the trie stores 0 at exactly the
  -- prefixes of those keys, besides what it stored before, and an address finds a value exactly if
  -- the network of some item has it, besides those that found one before.
  pub init_cidr_map-listed :
      (items : List GoString) (m m1 : cidrs.Map)
      → init_cidr_map cidrs items m ≡ ok (m1, none)
      → (all_keys items ≡ true)
        × ((k : CidrKey)
            → cidrs.stored m1 k ≡ (if is_listed k items then some 0 else cidrs.stored m k))
        × ((a : ℕ)
            → is_some (cidrs.lookup m1 a) ≡ (is_covered a items || is_some (cidrs.lookup m a)))
  unfolding init_cidr_map Step
  init_cidr_map-listed [] m m1 h =
      let same = sym (ok-injective h) in
      (
        refl,
        λ k. ap (λ t. cidrs.stored t.0 k) same,
        λ a. ap (λ t. is_some (cidrs.lookup t.0 a)) same,
      )
  init_cidr_map-listed (p ∷ items) m m1 h = elim (init_cidr_map-Step p items m) [
    | inl a ↦ absurd (no_error (sym h ∙ a.1))
    | inr (inl a) ↦ absurd (no_error (sym h ∙ a.2))
    | inr (inr a) ↦
        let (all, stored, found_at) =
          init_cidr_map-listed items (cidrs.put m a.0 0).0 m1 (sym a.3 ∙ h) in
        (
          rw (all_keys, a.1) all,
          λ k.
              rw (is_listed, a.1)
                (stored k
                  ∙ listed_then (same_prefix a.0 k) (is_listed k items) _ _
                      (cidrs.stored-put m a.0 k 0 a.2)),
          λ x.
              rw (is_covered, a.1)
                (found_at x
                  ∙ covered_then (contains a.0 x) (is_covered x items) _ _
                      (lookup-put cidrs m a.0 0 x a.2)),
        )
  ]
