-- ===== src/Exporter/StartUp/Serves.antt =====
-- What `main` runs with, and that its deferred `Close` gives back.
use mathlib.Core.List.{Perm}
use connectivity_exporter.Prelude.{
  ◌||◌, ℕ, ◌<◌, ◌≡◌, ◌≢◌, refl, sym, subst, ap, ◌∙◌, List, [], ◌∷◌, Option, none, some,
  if◌then◌else◌, ℕ_discrete,
}
use connectivity_exporter.Prelude.GoMap.{keys}
use connectivity_exporter.Prelude.GoString.{GoString}
use connectivity_exporter.Prelude.Results.{
  Error, Outcome, ok, err, panic, ok-injective, value, found,
}
use connectivity_exporter.Packet.Cidr.{init_cidr_map}
use connectivity_exporter.Packet.Trie.{LpmTrie}
use connectivity_exporter.Packet.Trie.Found.{is_some}
use connectivity_exporter.Packet.Ebpf.{BpfMap, Bpf}
use connectivity_exporter.Packet.Ports.{as_set, split}
use connectivity_exporter.Packet.Ports.Items.{Ranged, as_set-Ranged}
use connectivity_exporter.Packet.Setup.{
  Library, Steps, NetworkDataSource, new_ebpf_config, new_network_data_source, close,
}
use connectivity_exporter.Packet.Setup.Leaks.{close-new_network_data_source}
use connectivity_exporter.Packet.Slots.{NewMap}
use connectivity_exporter.Packet.Sockets.{SocketFd, close_sockets}
use connectivity_exporter.Exporter.Setup.{
  Maps, Ended, ended, after_ports, after_cidrs, set_up, Configured, set_up-Configured,
}
use connectivity_exporter.Exporter.StartUp.Ranges.{
  cidrs-same, covered-same, keys-same, ports-same, all_ports-same,
}
use connectivity_exporter.Exporter.StartUp.{
  Flags, Machine, Started, cidr_items, port_items, from_result, start_up,
}

module _ (cidrs : LpmTrie) (ports : BpfMap ℕ ℕ ℕ_discrete) (b : Bpf) (lib : Library)
    (new_map : NewMap) (attached : List SocketFd) where
  -- A setup ends as `NewNetworkDataSource` does on the errors of its steps.
  record Ends (n : ℕ) (x : Ended cidrs ports b lib new_map attached) : Type 0 where
    steps : Steps
    same_attached : steps.attached ≡ attached
    same_count : x.open_count ≡ (new_network_data_source lib steps n).0
    same_result : x.result ≡ (new_network_data_source lib steps n).1

  ended-Ends :
      (n : ℕ) (ce pe se : Option Error) (m : Maps cidrs ports b lib new_map attached)
      → Ends n (ended cidrs ports b lib new_map attached n ce pe se m)
  ended-Ends n ce pe se m = record {
    steps = record {
      init_cidr_map = ce;
      init_port_map = pe;
      init_stats_map = se;
      attached = attached;
    };
    same_attached = refl;
    same_count = refl;
    same_result = refl;
  }

  after_ports-Ends :
      (n : ℕ) (pe : Option Error) (m : Maps cidrs ports b lib new_map attached)
      → Ends n (after_ports cidrs ports b lib new_map attached n pe m)
  unfolding after_ports
  after_ports-Ends n (some e) m = ended-Ends n none (some e) none m
  after_ports-Ends n none m = ended-Ends n none none _ _

  after_cidrs-Ends :
      (items : List GoString) (n : ℕ) (ce : Option Error)
      (m : Maps cidrs ports b lib new_map attached)
      → Ends n (after_cidrs cidrs ports b lib new_map attached items n ce m)
  unfolding after_cidrs
  after_cidrs-Ends items n (some e) m = ended-Ends n (some e) none none m
  after_cidrs-Ends items n none m = after_ports-Ends n _ _

  set_up-Ends :
      (cidr_list port_list : List GoString) (n : ℕ) (m : Maps cidrs ports b lib new_map attached)
      (x : Ended cidrs ports b lib new_map attached)
      → set_up cidrs ports b lib new_map attached cidr_list port_list n m ≡ ok x
      → Ends n x
  unfolding set_up
  set_up-Ends cidr_list port_list n m x e =
      by_config (new_ebpf_config lib n).1 refl (init_cidr_map cidrs cidr_list m.cidr_map) refl
    where
      by_config :
          (c : Outcome (Unit {0}))
          → (new_ebpf_config lib n).1 ≡ c
          → (o : Outcome (cidrs.Map × Option Error)) → init_cidr_map cidrs cidr_list m.cidr_map ≡ o
          → Ends n x
      by_config panic c o q = absurd (cc (rw (set_up, c) at e))
      by_config (err x1) c o q =
          subst (Ends n) (ok-injective (rw (set_up, c) at e)) (ended-Ends n none none none m)
      by_config (ok u) c panic q = absurd (cc (rw (set_up, c, q) at e))
      by_config (ok u) c (err x1) q = absurd (cc (rw (set_up, c, q) at e))
      by_config (ok u) c (ok (cidr_map, ce)) q =
          subst (Ends n) (ok-injective (rw (set_up, c, q) at e))
            (after_cidrs-Ends port_list n ce (record m { cidr_map = cidr_map }))

  Configured-split :
      (slots : ℕ → ℕ) (cidr_list port_list : GoString) (cidr_set port_set : List GoString)
      (m m1 : Maps cidrs ports b lib new_map attached)
      → Ranged cidr_list cidr_set
      → Ranged port_list port_set
      → Configured cidrs ports b lib new_map attached slots cidr_set port_set m m1
      → Configured cidrs ports b lib new_map attached slots (split cidr_list) (split port_list) m m1
  Configured-split slots cidr_list port_list cidr_set port_set m m1 r t c = record {
    cidr_keys = sym (keys-same cidr_list cidr_set r) ∙ c.cidr_keys;
    cidrs_put = λ k.
        c.cidrs_put k
        ∙ ap (λ l. if l then some 0 else cidrs.stored m.cidr_map k)
            (cidrs-same cidr_list cidr_set r k);
    addresses = λ a.
        c.addresses a
        ∙ ap (λ l. l || is_some (cidrs.lookup m.cidr_map a)) (covered-same cidr_list cidr_set r a);
    port_numbers = sym (all_ports-same port_list port_set t) ∙ c.port_numbers;
    ports_put = λ port.
        c.ports_put port
        ∙ ap (λ l. if l then some 1 else found (ports.lookup m.port_map port))
            (ports-same port_list port_set t port);
    ring = c.ring;
  }

  -- What `main` serves with: the whole command line was understood, the maps hold what it lists, and
  -- `Close` gives back the collection and the sockets.
  pub record Serves (slots : ℕ → ℕ) (flags : Flags) (machine : Machine) (n : ℕ)
      (m : Maps cidrs ports b lib new_map attached) (s : NetworkDataSource)
      (x : Ended cidrs ports b lib new_map attached) : Type 0 where
    pub no_args : flags.args ≡ []
    pub unlimited : machine.setrlimit ≡ none
    pub configured :
        Configured cidrs ports b lib new_map attached slots
          (split flags.cidrs)
          (split flags.ports)
          m
          x.maps
    pub closes : (close s x.open_count).1 ≡ n
    pub closes_sockets : (close s x.open_count).2 ≡ (close_sockets attached).1

  from_result-serves :
      (o : Outcome NetworkDataSource) (s : NetworkDataSource)
      (y x : Ended cidrs ports b lib new_map attached)
      → from_result cidrs ports b lib new_map attached o y ≡ Started.serves s x
      → (o ≡ ok s) × (y ≡ x)
  from_result-serves panic s y x h = absurd (cc h)
  from_result-serves (err e) s y x h = absurd (cc h)
  from_result-serves (ok t) s y x h = (cc, cc)

  -- Where `start_up` serves, each step before has succeeded.
  record Reached (flags : Flags) (machine : Machine) (n : ℕ)
      (m : Maps cidrs ports b lib new_map attached) (s : NetworkDataSource)
      (x : Ended cidrs ports b lib new_map attached) : Type 0 where
    no_args : flags.args ≡ []
    unlimited : machine.setrlimit ≡ none
    set :
        set_up cidrs ports b lib new_map attached
          (cidr_items cidrs ports b lib new_map attached flags machine)
          (port_items cidrs ports b lib new_map attached flags machine)
          n
          m
        ≡ ok x
    result : x.result ≡ ok s

  start_up-Reached :
      (flags : Flags) (machine : Machine) (n : ℕ) (m : Maps cidrs ports b lib new_map attached)
      (s : NetworkDataSource) (x : Ended cidrs ports b lib new_map attached)
      → start_up cidrs ports b lib new_map attached flags machine n m ≡ Started.serves s x
      → Reached flags machine n m s x
  unfolding start_up
  start_up-Reached flags machine n m s x h =
      by_args flags.args refl machine.setrlimit refl whole refl
    where
      whole : Outcome (Ended cidrs ports b lib new_map attached)
      whole =
          set_up cidrs ports b lib new_map attached
            (cidr_items cidrs ports b lib new_map attached flags machine)
            (port_items cidrs ports b lib new_map attached flags machine) n m

      by_args :
          (args : List GoString)
          → flags.args ≡ args
          → (rl : Option Error) → machine.setrlimit ≡ rl
          → (o : Outcome (Ended cidrs ports b lib new_map attached)) → whole ≡ o
          → Reached flags machine n m s x
      by_args (arg ∷ args) p rl q o w = absurd (cc (rw (start_up, p) at h))
      by_args [] p (some e) q o w = absurd (cc (rw (start_up, p, q) at h))
      by_args [] p none q panic w = absurd (cc (rw (start_up, p, q, w) at h))
      by_args [] p none q (err e) w = absurd (cc (rw (start_up, p, q, w) at h))
      by_args [] p none q (ok y) w =
          let (result, same) = from_result-serves y.result s y x (rw (start_up, p, q, w) at h) in
          record {
            no_args = p;
            unlimited = q;
            set = w ∙ ap ok same;
            result = ap (λ t. t.result) (sym same) ∙ result;
          }

  -- When main starts its goroutines there was no argument without a flag, the limit was set, and
  -- NewNetworkDataSource has put exactly what the comma-separated lists name. Each item of the
  -- CIDRs stood for a key: the trie stores 0 at exactly their prefixes, and an address finds a
  -- value exactly if the network of some item has it, besides what it stored and found before.
  -- Each item of the ports stood for a port: their map holds 1 at exactly those, besides what it
  -- held before. The slots are a ring of separate maps, if each new map is one of its own, and all
  -- of this holds whatever the orders in which the runtime ranges over the two sets. The deferred
  -- Close then leaves as many collections open as before, and closes the attached sockets.
  pub start_up-Serves :
      (slots : ℕ → ℕ)
      → ((i : ℕ) → i < 20 → new_map i ≡ value (slots i))
      → ((i j : ℕ) → i < 20 → j < 20 → i ≢ j → slots i ≢ slots j)
      → (flags : Flags) (machine : Machine)
      → ((items : List GoString) → Perm (machine.cidr_order items) items)
      → ((items : List GoString) → Perm (machine.port_order items) items)
      → (n : ℕ) (m : Maps cidrs ports b lib new_map attached) (s : NetworkDataSource)
        (x : Ended cidrs ports b lib new_map attached)
      → start_up cidrs ports b lib new_map attached flags machine n m ≡ Started.serves s x
      → Serves slots flags machine n m s x
  start_up-Serves slots made apart flags machine cidr_perm port_perm n m s x h =
      let r = start_up-Reached flags machine n m s x h in
      let e = set_up-Ends _ _ n m x r.set in
      let given : (new_network_data_source lib e.steps n).1 ≡ ok s = sym e.same_result ∙ r.result in
      let (closed, sockets, again) = close-new_network_data_source lib e.steps n s given in
      let c =
        set_up-Configured cidrs ports b lib new_map attached slots made apart _ _ n m x s r.set
          r.result in
      record {
        no_args = r.no_args;
        unlimited = r.unlimited;
        configured =
            Configured-split slots flags.cidrs flags.ports _ _ m x.maps
              (as_set-Ranged flags.cidrs _ (cidr_perm (keys (as_set flags.cidrs))))
              (as_set-Ranged flags.ports _ (port_perm (keys (as_set flags.ports)))) c;
        closes = ap (λ k. (close s k).1) e.same_count ∙ closed;
        closes_sockets =
            ap (λ k. (close s k).2) e.same_count
            ∙ sockets
            ∙ ap (λ t. (close_sockets t).1) e.same_attached;
      }
