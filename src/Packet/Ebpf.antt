-- ===== src/Packet/Ebpf.antt =====
-- Maps of the eBPF library that the program calls, and the maps of the kernel that it shares.
use connectivity_exporter.Prelude.{ℕ, ◌≡◌, ite, List, Option, none, some, ℕ_discrete}
use connectivity_exporter.Prelude.GoString.{GoString, GoString-discrete}
use connectivity_exporter.Prelude.GoMap.{get, IsMap}
use connectivity_exporter.Prelude.Results.{Error, Reply, found}
use connectivity_exporter.Packet.Bytes.{CTupleData}

-- A hash map of the library, with its documented behaviour while nobody else writes to it.
pub record BpfMap (K V : Type 0) (disc : Discrete K) : Type 1 where
  pub Map : Type 0
  pub lookup : Map → K → Reply V
  -- the map after `Put`, and its error
  pub put : Map → K → V → Map × Option Error
  -- `Delete`, whose error the program ignores
  pub delete : Map → K → Map
  -- the entries that `Iterate` yields, and its error
  pub iterate : Map → List (K × V) × Option Error
  pub lookup-put :
      (m : Map) (k j : K) (v : V)
      → (put m k v).1 ≡ none
      → found (lookup (put m k v).0 j) ≡ ite (disc k j) (some v) (found (lookup m j))
  pub lookup-delete :
      (m : Map) (k j : K) → found (lookup (delete m k) j) ≡ ite (disc k j) none (found (lookup m j))
  -- An iteration that ends with no error has yielded each entry, once.
  pub get-iterate :
      (m : Map) (k : K) → (iterate m).1 ≡ none → get disc (iterate m).0 k ≡ found (lookup m k)
  pub iterate-IsMap : (m : Map) → (iterate m).1 ≡ none → IsMap disc (iterate m).0

-- An array of the library, in which nothing is deleted.
pub record BpfArray (V : Type 0) : Type 1 where
  pub Map : Type 0
  pub lookup : Map → ℕ → Reply V
  pub put : Map → ℕ → V → Map × Option Error
  pub iterate : Map → List (ℕ × V) × Option Error
  pub lookup-put :
      (m : Map) (k j : ℕ) (v : V)
      → (put m k v).1 ≡ none
      → found (lookup (put m k v).0 j) ≡ ite (ℕ_discrete k j) (some v) (found (lookup m j))
  pub get-iterate :
      (m : Map) (k : ℕ) → (iterate m).1 ≡ none → get ℕ_discrete (iterate m).0 k ≡ found (lookup m k)
  pub iterate-IsMap : (m : Map) → (iterate m).1 ≡ none → IsMap ℕ_discrete (iterate m).0

-- `struct tuple_key_t`
pub record TupleKey : Type 0 where
  pub source_ip : ℕ
  pub dest_ip : ℕ
  pub source_port : ℕ
  pub dest_port : ℕ

unfoldable pub TupleKey-discrete : Discrete TupleKey
unfolding ℕ_discrete
TupleKey-discrete = hlevel ℕ_discrete

-- `[2]uint64`: succeeded and failed connections.
abbrev pub Stats : Type 0
Stats = ℕ × ℕ

-- The maps of `ebpfConfig` that the tracker uses. The outer stats map holds inner maps by their
-- identity: a number.
pub record Bpf : Type 1 where
  pub connection : BpfMap TupleKey CTupleData TupleKey-discrete
  pub outer : BpfArray ℕ
  pub inner : BpfMap GoString Stats GoString-discrete
  pub clock : BpfArray ℕ

-- What the kernel holds in them.
pub record Kernel (b : Bpf) : Type 0 where
  pub connection_map : b.connection.Map
  pub stats_map : b.outer.Map
  pub inner_maps : ℕ → b.inner.Map
  pub ticker_clock_map : b.clock.Map
