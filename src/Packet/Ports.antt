-- ===== src/Packet/Ports.antt =====
-- connectivity-exporter/packet: `AsSet` of packet.go, `initPortMap` of bpf.go.
pub mod Configured
pub mod Items
use connectivity_exporter.Prelude.{
  ℕ, ◌+◌, ◌-◌, ◌*◌, ◌^◌, Bool, ◌&&◌, List, [], ◌∷◌, Option, none, some, leb, ltb, ◌==◌,
  if◌then◌else◌, ℕ_discrete,
}
use connectivity_exporter.Prelude.GoString.{GoString, GoString-discrete}
use connectivity_exporter.Prelude.GoMap.{GoMap, put, keys}
use connectivity_exporter.Prelude.Results.{Error, invalid_port}
use connectivity_exporter.Packet.Ebpf.{BpfMap}

-- A byte before the first item of a list.
abbrev pub onto_first : ℕ → List GoString → List GoString
onto_first b [] = (b ∷ []) ∷ []
onto_first b (item ∷ items) = (b ∷ item) ∷ items

-- `strings.Split(list, ",")`, which has one item at least.
unfoldable pub split : GoString → List GoString
split [] = [] ∷ []
split (b ∷ bs) = let rest = split bs in if b == b',' then [] ∷ rest else onto_first b rest

unfoldable pub add_items : List GoString → GoMap GoString (Unit {0}) → GoMap GoString (Unit {0})
add_items [] set = set
add_items (item ∷ items) set = add_items items (put GoString-discrete set item tt)

unfoldable pub as_set : GoString → GoMap GoString (Unit {0})
unfolding split add_items
as_set list = add_items (split list) []

-- Decimal digits, most significant first, after a number.
unfoldable pub digits : ℕ → GoString → Option ℕ
digits n [] = some n
digits n (b ∷ bs) =
    let rest = digits (n * 10 + (b - 48)) bs in if leb 48 b && leb b 57 then rest else none

-- `strconv.ParseUint(p, 10, 16)`; the program tells no error of it from another.
unfoldable pub parse_port : GoString → Option ℕ
unfolding digits
parse_port [] = none
parse_port (b ∷ bs) = elim (digits 0 (b ∷ bs)) [
  | none ↦ none
  | some n ↦ if ltb n (2 ^ 16) then some n else none
]

module _ (ports : BpfMap ℕ ℕ ℕ_discrete) where
  open ports use {Map}

  -- The loop over the set's items: the map, and the error that ends it.
  unfoldable pub init_port_map : List GoString → Map → Map × Option Error
  unfolding parse_port
  init_port_map [] m = (m, none)
  init_port_map (p ∷ items) m = elim (parse_port p) [
    | none ↦ (m, some invalid_port)
    | some port ↦
        let (m1, e) = ports.put m port 1 in
        elim e [ some x ↦ (m1, some x) | none ↦ init_port_map items m1 ]
  ]
