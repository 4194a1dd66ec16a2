-- ===== src/Exporter/StartUp/Ranges.antt =====
-- The order in which `main`'s sets of items are ranged over does not matter to the setup.
use connectivity_exporter.Prelude.{
  ℕ, ◌≡◌, refl, sym, ap, ◌∙◌, Bool, true, false, ◌==◌, ◌&&◌, ◌||◌, List, [], ◌∷◌, Option, none,
  some,
}
use connectivity_exporter.Prelude.GoString.{GoString}
use connectivity_exporter.Packet.Trie.{CidrKey, same_prefix}
use connectivity_exporter.Packet.Trie.Found.{contains}
use connectivity_exporter.Packet.Cidr.Listed as Cidr
use connectivity_exporter.Packet.Cidr.Listed.{all_keys, item_key}
use connectivity_exporter.Packet.Ports.{split, parse_port}
use connectivity_exporter.Packet.Ports.Configured as Ports
use connectivity_exporter.Packet.Ports.Configured.{all_ports}
use connectivity_exporter.Packet.Ports.Items.{any, every, any-same, every-same, Ranged}

-- The tests of an item.
abbrev stands_for : CidrKey → GoString → Bool
stands_for k h = elim (item_key h) [ none ↦ false | some j ↦ same_prefix j k ]

abbrev has_address : ℕ → GoString → Bool
has_address a h = elim (item_key h) [ none ↦ false | some j ↦ contains j a ]

abbrev has_key : GoString → Bool
has_key h = elim (item_key h) [ none ↦ false | some j ↦ true ]

abbrev is_port : ℕ → GoString → Bool
is_port port p = elim (parse_port p) [ none ↦ false | some n ↦ n == port ]

abbrev has_port : GoString → Bool
has_port p = elim (parse_port p) [ none ↦ false | some n ↦ true ]

listed-any :
    (k : CidrKey) (items : List GoString) → Cidr.is_listed k items ≡ any (stands_for k) items
listed-any k [] = refl
listed-any k (h ∷ items) = ap (λ c. stands_for k h || c) (listed-any k items)

covered-any : (a : ℕ) (items : List GoString) → Cidr.is_covered a items ≡ any (has_address a) items
covered-any a [] = refl
covered-any a (h ∷ items) = ap (λ c. has_address a h || c) (covered-any a items)

keys-every : (items : List GoString) → all_keys items ≡ every has_key items
keys-every [] = refl
keys-every (h ∷ items) = by_key (item_key h) (keys-every items)
  where
    by_key :
        (o : Option CidrKey)
        → all_keys items ≡ every has_key items
        → elim o [ none ↦ false | some j ↦ all_keys items ]
          ≡ (elim o [ none ↦ false | some j ↦ true ] && every has_key items)
    by_key none rest = refl
    by_key (some j) rest = rest

port-any :
    (port : ℕ) (items : List GoString) → Ports.is_listed port items ≡ any (is_port port) items
port-any port [] = refl
port-any port (p ∷ items) = ap (λ c. is_port port p || c) (port-any port items)

ports-every : (items : List GoString) → all_ports items ≡ every has_port items
ports-every [] = refl
ports-every (p ∷ items) = by_port (parse_port p) (ports-every items)
  where
    by_port :
        (o : Option ℕ)
        → all_ports items ≡ every has_port items
        → elim o [ none ↦ false | some j ↦ all_ports items ]
          ≡ (elim o [ none ↦ false | some j ↦ true ] && every has_port items)
    by_port none rest = refl
    by_port (some j) rest = rest

module _ (list : GoString) (items : List GoString) (r : Ranged list items) where
  pub cidrs-same : (k : CidrKey) → Cidr.is_listed k items ≡ Cidr.is_listed k (split list)
  cidrs-same k =
      listed-any k items
      ∙ any-same (stands_for k) items (split list) r.there r.back
      ∙ sym (listed-any k (split list))

  pub covered-same : (a : ℕ) → Cidr.is_covered a items ≡ Cidr.is_covered a (split list)
  covered-same a =
      covered-any a items
      ∙ any-same (has_address a) items (split list) r.there r.back
      ∙ sym (covered-any a (split list))

  pub keys-same : all_keys items ≡ all_keys (split list)
  keys-same =
      keys-every items
      ∙ every-same has_key items (split list) r.there r.back
      ∙ sym (keys-every (split list))

  pub ports-same : (port : ℕ) → Ports.is_listed port items ≡ Ports.is_listed port (split list)
  ports-same port =
      port-any port items
      ∙ any-same (is_port port) items (split list) r.there r.back
      ∙ sym (port-any port (split list))

  pub all_ports-same : all_ports items ≡ all_ports (split list)
  all_ports-same =
      ports-every items
      ∙ every-same has_port items (split list) r.there r.back
      ∙ sym (ports-every (split list))
