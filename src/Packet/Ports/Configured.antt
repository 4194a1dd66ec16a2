-- ===== src/Packet/Ports/Configured.antt =====
-- Which ports are configured, and what `AsSet` splits.
use connectivity_exporter.Prelude.{
  ℕ, ◌≡◌, refl, ap, ap₂, sym, ◌∙◌, arith, Bool, true, false, ◌||◌, List, [], ◌∷◌, ◌++◌, Option,
  none, some, ◌==◌, if◌then◌else◌, ite, ℕ_discrete,
}
use connectivity_exporter.Prelude.GoString.{GoString}
use connectivity_exporter.Prelude.Results.{Error, found}
use connectivity_exporter.Packet.Ebpf.{BpfMap}
use connectivity_exporter.Packet.Ports.{parse_port, init_port_map, split, onto_first}

-- Some item of the list is the decimal text of this port.
abbrev pub is_listed : ℕ → List GoString → Bool
is_listed port [] = false
is_listed port (p ∷ items) =
    elim (parse_port p) [ none ↦ false | some n ↦ n == port ] || is_listed port items

-- Each item is the decimal text of a port.
abbrev pub all_ports : List GoString → Bool
all_ports [] = true
all_ports (p ∷ items) = elim (parse_port p) [ none ↦ false | some n ↦ all_ports items ]

-- A step of the loop that does not fail.
Step : (ports : BpfMap ℕ ℕ ℕ_discrete) → GoString → List GoString → ports.Map → Type 0
Step ports p items m =
    (n : ℕ) × (parse_port p ≡ some n)
    × ((ports.put m n 1).1 ≡ none)
    × (init_port_map ports (p ∷ items) m ≡ init_port_map ports items (ports.put m n 1).0)

init_port_map-Step :
    (ports : BpfMap ℕ ℕ ℕ_discrete) (p : GoString) (items : List GoString) (m : ports.Map)
    → (init_port_map ports (p ∷ items) m).1 ≡ none
    → Step ports p items m
unfolding init_port_map Step
init_port_map-Step ports p items m h = by_port (parse_port p) refl
  where
    by_put :
        (n : ℕ)
        → parse_port p ≡ some n
        → (e : Option Error) → (ports.put m n 1).1 ≡ e
        → Step ports p items m
    by_put n q none e = (n, q, e, rw (init_port_map, q, e))
    by_put n q (some x) e = absurd (cc (rw (init_port_map, q, e) at h))

    by_port : (o : Option ℕ) → parse_port p ≡ o → Step ports p items m
    by_port none q = absurd (cc (rw (init_port_map, q) at h))
    by_port (some n) q = by_put n q (ports.put m n 1).1 refl

listed_then :
    (n port : ℕ) (rest : Bool) (before after : Option ℕ)
    → after ≡ ite (ℕ_discrete n port) (some 1) before
    → (if rest then some 1 else after) ≡ (if (n == port) || rest then some 1 else before)
listed_then n port rest before after e = ground arith

-- When `initPortMap` succeeds, each item was the decimal text of a port below 2 ^ 16, and the map
-- holds 1 at exactly the ports that are listed, besides what it held before.
pub init_port_map-listed :
    (ports : BpfMap ℕ ℕ ℕ_discrete) (items : List GoString) (m : ports.Map) (port : ℕ)
    → (init_port_map ports items m).1 ≡ none
    → (all_ports items ≡ true)
      × (found (ports.lookup (init_port_map ports items m).0 port)
          ≡ (if is_listed port items then some 1 else found (ports.lookup m port)))
unfolding init_port_map Step
init_port_map-listed ports [] m port h = (refl, refl)
init_port_map-listed ports (p ∷ items) m port h =
    let (n, parsed, put, rest) = init_port_map-Step ports p items m h in
    let (all, later) = init_port_map-listed ports items (ports.put m n 1).0 port (rw rest at h) in
    (
      rw (all_ports, parsed) all,
      rw (rest, parsed)
          (later ∙ listed_then n port (is_listed port items) _ _ (ports.lookup-put m n port 1 put)),
    )

-- The items with commas between them.
abbrev pub join : List GoString → GoString
join [] = []
join (item ∷ []) = item
join (item ∷ next ∷ items) = item ++ b',' ∷ join (next ∷ items)

abbrev pub has_comma : GoString → Bool
has_comma [] = false
has_comma (b ∷ bs) = b == b',' || has_comma bs

abbrev pub any_has_comma : List GoString → Bool
any_has_comma [] = false
any_has_comma (item ∷ items) = has_comma item || any_has_comma items

-- What is proved of a splitting: the items, joined, and no comma in any.
Splits : GoString → List GoString → Type 0
Splits s [] = ⊥
Splits s (item ∷ items) = (join (item ∷ items) ≡ s) × (any_has_comma (item ∷ items) ≡ false)

onto_first-Splits :
    (b : ℕ) (s : GoString) (items : List GoString)
    → (b == b',') ≡ false
    → Splits s items
    → Splits (b ∷ s) (onto_first b items)
unfolding Splits
onto_first-Splits b s [] ne h = elim h [ ]
onto_first-Splits b s (item ∷ []) ne (e, h) = (ap (λ t. b ∷ t) e, ground (arith, h))
onto_first-Splits b s (item ∷ next ∷ items) ne (e, h) = (ap (λ t. b ∷ t) e, ground (arith, h))

cut-Splits :
    (b : ℕ) (s : GoString) (items : List GoString)
    → b ≡ b','
    → Splits s items
    → Splits (b ∷ s) ([] ∷ items)
unfolding Splits
cut-Splits b s [] comma h = elim h [ ]
cut-Splits b s (item ∷ items) comma (e, h) = (ap₂ ◌∷◌ (sym comma) e, h)

step-Splits :
    (b : ℕ) (s : GoString) (items : List GoString) (c : Bool)
    → (b == b',') ≡ c
    → Splits s items
    → Splits (b ∷ s) (if c then [] ∷ items else onto_first b items)
step-Splits b s items true q h = cut-Splits b s items (ground (arith, q)) h
step-Splits b s items false q h = onto_first-Splits b s items q h

split-Splits : (s : GoString) → Splits s (split s)
unfolding Splits split
split-Splits [] = (refl, refl)
split-Splits (b ∷ s) = step-Splits b s (split s) (b == b',') refl (split-Splits s)

Splits-join :
    (s : GoString) (items : List GoString)
    → Splits s items
    → (join items ≡ s) × (any_has_comma items ≡ false)
unfolding Splits
Splits-join s [] h = elim h [ ]
Splits-join s (item ∷ items) h = h

-- The items that `AsSet` splits a list into have no comma, and joined by commas they are the list.
pub split-join : (s : GoString) → (join (split s) ≡ s) × (any_has_comma (split s) ≡ false)
split-join s = Splits-join s (split s) (split-Splits s)
