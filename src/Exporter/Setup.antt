-- ===== src/Exporter/Setup.antt =====
-- `NewNetworkDataSource` of connectivity-exporter/packet/packet.go with the functions that it calls.
use connectivity_exporter.Prelude.{
  ◌||◌, ℕ, ◌<◌, ◌≡◌, ◌≢◌, refl, subst, ap, ◌∙◌, arith, true, List, Option, none, some,
  if◌then◌else◌, ℕ_discrete,
}
use connectivity_exporter.Prelude.GoString.{GoString}
use connectivity_exporter.Prelude.Results.{
  Error, Outcome, ok, err, panic, ok-injective, value, found,
}
use connectivity_exporter.Packet.Cidr.{init_cidr_map}
use connectivity_exporter.Packet.Trie.{CidrKey, LpmTrie}
use connectivity_exporter.Packet.Trie.Found.{is_some}
use connectivity_exporter.Packet.Cidr.Listed as Cidr
use connectivity_exporter.Packet.Cidr.Listed.{all_keys, init_cidr_map-listed}
use connectivity_exporter.Packet.Ebpf.{BpfMap, Bpf, Kernel}
use connectivity_exporter.Packet.Ports.{init_port_map}
use connectivity_exporter.Packet.Ports.Configured as Ports
use connectivity_exporter.Packet.Ports.Configured.{all_ports, init_port_map-listed}
use connectivity_exporter.Packet.Ring.{IsRing}
use connectivity_exporter.Packet.Ring.Start.{init_stats_map-IsRing}
use connectivity_exporter.Packet.Setup.{
  Library, NetworkDataSource, new_ebpf_config, new_network_data_source,
}
use connectivity_exporter.Packet.Slots.{NewMap, init_stats_map}
use connectivity_exporter.Packet.Sockets.{SocketFd}

module _ (cidrs : LpmTrie) (ports : BpfMap ℕ ℕ ℕ_discrete) (b : Bpf) (lib : Library)
    (new_map : NewMap) (attached : List SocketFd) where
  -- The maps that the setup fills.
  pub record Maps : Type 0 where
    pub cidr_map : cidrs.Map
    pub port_map : ports.Map
    pub kernel : Kernel b

  -- How a setup ends: the collections open, the source, and the maps.
  pub record Ended : Type 0 where
    pub open_count : ℕ
    pub result : Outcome NetworkDataSource
    pub maps : Maps

  abbrev pub ended : ℕ → Option Error → Option Error → Option Error → Maps → Ended
  ended n ce pe se m =
      let (opened, r) =
        new_network_data_source lib
          (record {
            init_cidr_map = ce;
            init_port_map = pe;
            init_stats_map = se;
            attached = attached;
          })
          n in
      record { open_count = opened; result = r; maps = m }

  -- The end of a setup whose collection is made, after the error of `initCIDRMap` and that of
  -- `initPortMap`: each initialisation runs if the one before it has not failed.
  unfoldable pub after_ports : ℕ → Option Error → Maps → Ended
  after_ports n (some e) m = ended n none (some e) none m
  after_ports n none m =
      let (stats_map, se) = init_stats_map b new_map m.kernel.stats_map in
      ended n none none se (record m { kernel = record m.kernel { stats_map = stats_map } })

  unfoldable pub after_cidrs : List GoString → ℕ → Option Error → Maps → Ended
  unfolding after_ports
  after_cidrs port_items n (some e) m = ended n (some e) none none m
  after_cidrs port_items n none m =
      let (port_map, pe) = init_port_map ports port_items m.port_map in
      after_ports n pe (record m { port_map = port_map })

  -- The items stand in the order in which the runtime ranges over the two sets.
  unfoldable pub set_up : List GoString → List GoString → ℕ → Maps → Outcome Ended
  unfolding after_cidrs
  set_up cidr_items port_items n m = elim (new_ebpf_config lib n).1 [
    | panic ↦ panic
    | err e ↦ ok (ended n none none none m)
    | ok u ↦ elim (init_cidr_map cidrs cidr_items m.cidr_map) [
      | panic ↦ panic
      | err e ↦ err e
      | ok (cidr_map, ce) ↦ ok (after_cidrs port_items n ce (record m { cidr_map = cidr_map }))
    ]
  ]

  -- No initialisation failed.
  succeeds :
      (n : ℕ) (ce pe se : Option Error) (m : Maps) (s : NetworkDataSource)
      → (ended n ce pe se m).result ≡ ok s
      → (ce ≡ none) × (pe ≡ none) × (se ≡ none)
  unfolding new_network_data_source
  succeeds n ce pe se m s h = ground (arith, h)

  refuses :
      (n : ℕ) (e : Error) (m : Maps) (s : NetworkDataSource)
      → (new_ebpf_config lib n).1 ≡ err e
      → (ended n none none none m).result ≢ ok s
  unfolding new_network_data_source
  refuses n e m s c h = cc (rw (new_network_data_source, c) at h)

  -- The maps of a setup that succeeded.
  pub record Configured (slots : ℕ → ℕ) (cidr_items port_items : List GoString) (m : Maps)
      (m1 : Maps) : Type 0 where
    pub cidr_keys : all_keys cidr_items ≡ true
    pub cidrs_put :
        (k : CidrKey)
        → cidrs.stored m1.cidr_map k
          ≡ (if Cidr.is_listed k cidr_items then some 0 else cidrs.stored m.cidr_map k)
    pub addresses :
        (a : ℕ)
        → is_some (cidrs.lookup m1.cidr_map a)
          ≡ (Cidr.is_covered a cidr_items || is_some (cidrs.lookup m.cidr_map a))
    pub port_numbers : all_ports port_items ≡ true
    pub ports_put :
        (port : ℕ)
        → found (ports.lookup m1.port_map port) ≡ (
            if Ports.is_listed port port_items
            then some 1
            else found (ports.lookup m.port_map port))
    pub ring : IsRing b slots m1.kernel

  module _ (slots : ℕ → ℕ) (made : (i : ℕ) → i < 20 → new_map i ≡ value (slots i))
      (apart : (i j : ℕ) → i < 20 → j < 20 → i ≢ j → slots i ≢ slots j) where
    -- What the last two initialisations leave, on maps of which the ports are still to be put.
    after_ports-IsRing :
        (n : ℕ) (pe : Option Error) (m : Maps) (s : NetworkDataSource)
        → (after_ports n pe m).result ≡ ok s
        → (pe ≡ none)
          × IsRing b slots (after_ports n pe m).maps.kernel
          × ((after_ports n pe m).maps.cidr_map ≡ m.cidr_map)
          × ((after_ports n pe m).maps.port_map ≡ m.port_map)
    unfolding after_ports
    after_ports-IsRing n (some e) m s h = absurd (cc (succeeds n none (some e) none m s h).1)
    after_ports-IsRing n none m s h =
        let (c, p, done) =
          succeeds n none none (init_stats_map b new_map m.kernel.stats_map).1 m s h in
        (refl, init_stats_map-IsRing b new_map slots m.kernel done made apart, refl, refl)

    after_cidrs-Configured :
        (cidr_items port_items : List GoString) (n : ℕ) (ce : Option Error) (m : Maps)
        (cidr_map : cidrs.Map) (s : NetworkDataSource)
        → init_cidr_map cidrs cidr_items m.cidr_map ≡ ok (cidr_map, ce)
        → (after_cidrs port_items n ce (record m { cidr_map = cidr_map })).result ≡ ok s
        → Configured slots cidr_items port_items m
            (after_cidrs port_items n ce (record m { cidr_map = cidr_map })).maps
    unfolding after_cidrs
    after_cidrs-Configured cidr_items port_items n (some e) m cidr_map s q h =
        absurd (cc (succeeds n (some e) none none m s h).0)
    after_cidrs-Configured cidr_items port_items n none m cidr_map s q h =
        let listed = init_cidr_map-listed cidrs cidr_items m.cidr_map cidr_map q in
        let put = init_port_map ports port_items m.port_map in
        let (pe, ring, same_cidrs, same_ports) =
          after_ports-IsRing n put.1 (record m { cidr_map = cidr_map; port_map = put.0 }) s h in
        record {
          cidr_keys = listed.0;
          cidrs_put = λ k. ap (λ t. cidrs.stored t k) same_cidrs ∙ listed.1 k;
          addresses = λ a. ap (λ t. is_some (cidrs.lookup t a)) same_cidrs ∙ listed.2 a;
          port_numbers = (init_port_map-listed ports port_items m.port_map 0 pe).0;
          ports_put = λ port.
              ap (λ t. found (ports.lookup t port)) same_ports
              ∙ (init_port_map-listed ports port_items m.port_map port pe).1;
          ring = ring;
        }

    -- When `NewNetworkDataSource` succeeds, each item of the CIDRs stood for a key and each item of
    -- the ports for a port, their maps hold 0 and 1 at exactly those, besides what they held before,
    -- and the slots of the statistics are a ring of separate maps, if each new map is one of its own.
    pub set_up-Configured :
        (cidr_items port_items : List GoString) (n : ℕ) (m : Maps) (x : Ended)
        (s : NetworkDataSource)
        → set_up cidr_items port_items n m ≡ ok x
        → x.result ≡ ok s
        → Configured slots cidr_items port_items m x.maps
    unfolding set_up
    set_up-Configured cidr_items port_items n m x s e h = by_config (new_ebpf_config lib n).1 refl
      where
        by_cidrs :
            (new_ebpf_config lib n).1 ≡ ok tt
            → (o : Outcome (cidrs.Map × Option Error))
            → init_cidr_map cidrs cidr_items m.cidr_map ≡ o
            → Configured slots cidr_items port_items m x.maps
        by_cidrs c panic q = absurd (cc (rw (set_up, c, q) at e))
        by_cidrs c (err x1) q = absurd (cc (rw (set_up, c, q) at e))
        by_cidrs c (ok (cidr_map, ce)) q =
            let same : after_cidrs port_items n ce (record m { cidr_map = cidr_map }) ≡ x =
              ok-injective (rw (set_up, c, q) at e) in
            subst (λ t. Configured slots cidr_items port_items m t.maps) same
              (after_cidrs-Configured cidr_items port_items n ce m cidr_map s q
                (ap (λ t. t.result) same ∙ h))

        by_config :
            (o : Outcome (Unit {0}))
            → (new_ebpf_config lib n).1 ≡ o
            → Configured slots cidr_items port_items m x.maps
        by_config (ok u) c = by_cidrs c (init_cidr_map cidrs cidr_items m.cidr_map) refl
        by_config panic c = absurd (cc (rw (set_up, c) at e))
        by_config (err x1) c =
            let same : ended n none none none m ≡ x = ok-injective (rw (set_up, c) at e) in
            absurd (refuses n x1 m s c (ap (λ t. t.result) same ∙ h))
