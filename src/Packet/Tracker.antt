-- ===== src/Packet/Tracker.antt =====
-- connectivity-exporter/packet/packet.go: one tick of `TrackConnections`, and
-- `getOldestStatsAndCleanup`.
pub mod Branches
pub mod Ring
pub mod Stale
pub mod Keys
pub mod Judged
pub mod Reports
pub mod Carry
pub mod Collected
pub mod Progress
pub mod Entries
pub mod Remembered
pub mod Remembers
use connectivity_exporter.Prelude.{
  ℕ, ◌+◌, ◌%◌, Bool, true, false, List, [], ◌∷◌, ◌++◌, Option, none, some, ite, ℕ_discrete,
  if◌then◌else◌,
}
use connectivity_exporter.Prelude.GoString.{GoString}
use connectivity_exporter.Prelude.GoMap.{GoMap, get, put, keys}
use connectivity_exporter.Prelude.Results.{
  Error, Outcome, ok, err, panic, ◌>>=◌, Reply, value, failure,
}
use connectivity_exporter.Metrics.Inc.{Inc}
use connectivity_exporter.Packet.Connection.{
  TupleData, ConnKey, ConnKey-discrete, is_connection_old, uint64,
}
use connectivity_exporter.Packet.Account.{State, account_for_connections, delete_expired_snis}
use connectivity_exporter.Packet.Bytes.{CTupleData, tuple_data_from_c, put_uint32}
use connectivity_exporter.Packet.Bytes.Addresses.{ip_string, conn_key_of_bytes}
use connectivity_exporter.Packet.Ebpf.{Bpf, Kernel, TupleKey, TupleKey-discrete, Stats}

-- The local variables of the goroutine that live from tick to tick.
pub record Locals : Type 0 where
  pub state : State
  pub current_ticker_clock : ℕ
  pub previous_failed_second : GoMap ConnKey Bool

-- Before the first tick.
abbrev pub init_locals : Locals
init_locals = record {
  state = record { snis = [] };
  current_ticker_clock = 0;
  previous_failed_second = [];
}

-- What the runtime decides in a tick: the order in which it ranges over the set of keys, and the
-- times that `time.Now()` reads, for each key and at the end.
pub record Env : Type 0 where
  pub order : List ConnKey → List ConnKey
  pub now_at : ConnKey → ℕ
  pub now_end : ℕ

-- What a tick sends on the channel, and the SNIs it hands to `metrics.DeleteMetrics`.
pub record Report : Type 0 where
  pub incs : List Inc
  pub deleted : List GoString

abbrev pub get_or : {K V : Type 0} (disc : Discrete K) → GoMap K V → K → V → V
get_or disc m k d = elim (get disc m k) [ none ↦ d | some v ↦ v ]

-- The first loop: the connections that are old at the clock.
unfoldable pub old_connections :
    ℕ → List (TupleKey × CTupleData) → GoMap TupleKey TupleData → GoMap TupleKey TupleData
old_connections clock [] old = old
old_connections clock ((key, val) ∷ entries) old =
    let data_of = tuple_data_from_c val in
    old_connections clock entries (
      if is_connection_old data_of.ticker_clock_first_packet clock
      then put TupleKey-discrete old key data_of
      else old)

-- `net.IP{}` has no byte to write to.
unfoldable pub conn_key_of_tuple : TupleKey → TupleData → Outcome ConnKey
unfolding put_uint32
conn_key_of_tuple k v = do
  source ← put_uint32 [] k.source_ip
  dest ← put_uint32 [] k.dest_ip
  source_text ← ip_string source
  dest_text ← ip_string dest
  ok (record { source_ip = source_text; dest_ip = dest_text; sni = v.sni })

-- The set of the keys of old connections.
unfoldable pub add_old_keys :
    GoMap TupleKey TupleData → GoMap ConnKey (Unit {0}) → Outcome (GoMap ConnKey (Unit {0}))
add_old_keys [] set = ok set
add_old_keys ((k, v) ∷ old) set = do
  key ← conn_key_of_tuple k v
  add_old_keys old (put ConnKey-discrete set key tt)

-- … joined with those of the kernel's statistics.
unfoldable pub add_stats_keys :
    GoMap ConnKey Stats → GoMap ConnKey (Unit {0}) → GoMap ConnKey (Unit {0})
add_stats_keys [] set = set
add_stats_keys ((k, v) ∷ stats) set = add_stats_keys stats (put ConnKey-discrete set k tt)

unfoldable pub no_connections : List ConnKey → GoMap ConnKey (List TupleData)
no_connections [] = []
no_connections (k ∷ ks) = put ConnKey-discrete (no_connections ks) k []

unfoldable pub add_stale :
    GoMap TupleKey TupleData
    → GoMap ConnKey (List TupleData)
    → Outcome (GoMap ConnKey (List TupleData))
add_stale [] stale = ok stale
add_stale ((k, v) ∷ old) stale = do
  key ← conn_key_of_tuple k v
  add_stale old (put ConnKey-discrete stale key (get_or ConnKey-discrete stale key [] ++ v ∷ []))

-- `if _, ok := previousFailedSecond[sni]; !ok { previousFailedSecond[sni] = false }`
unfoldable pub ensure_previous : ConnKey → GoMap ConnKey Bool → GoMap ConnKey Bool
ensure_previous k previous = elim (get ConnKey-discrete previous k) [
  | none ↦ put ConnKey-discrete previous k false
  | some b ↦ previous
]

-- The keys of `sniSet` and the map `staleConnections`.
abbrev pub Groups : Type 0
Groups = List ConnKey × GoMap ConnKey (List TupleData)

unfoldable pub group_stale : GoMap TupleKey TupleData → GoMap ConnKey Stats → Outcome Groups
group_stale old stats = do
  set ← add_old_keys old []
  let sni_set = add_stats_keys stats set
  stale ← add_stale old (no_connections (keys sni_set))
  ok (keys sni_set, stale)

-- The body of the last loop, for one key.
unfoldable pub account_key :
    (ConnKey → ℕ)
    → GoMap ConnKey Stats
    → GoMap ConnKey (List TupleData)
    → ConnKey
    → State × GoMap ConnKey Bool
    → State × GoMap ConnKey Bool × Inc
unfolding ensure_previous
account_key now_at stats stale k (s, previous) =
    let (succeeded, failed) = get_or ConnKey-discrete stats k (0, 0) in
    let previous1 = ensure_previous k previous in
    let (s1, inc, failed_second) =
      account_for_connections (now_at k) s k (get_or ConnKey-discrete previous1 k false)
        (get_or ConnKey-discrete stale k []) succeeded failed in
    (s1, put ConnKey-discrete previous1 k failed_second, inc)

unfoldable pub account_keys :
    (ConnKey → ℕ)
    → GoMap ConnKey Stats
    → GoMap ConnKey (List TupleData)
    → List ConnKey
    → State × GoMap ConnKey Bool
    → State × GoMap ConnKey Bool × List Inc
account_keys now_at stats stale [] (s, previous) = (s, previous, [])
account_keys now_at stats stale (k ∷ ks) sp =
    let (s1, previous1, inc) = account_key now_at stats stale k sp in
    let (s2, previous2, incs) = account_keys now_at stats stale ks (s1, previous1) in
    (s2, previous2, inc ∷ incs)

-- The statistics by counter key: the loop over the inner map's entries. It panics on a key too
-- short to slice; a later entry of the same counter key replaces an earlier one.
unfoldable pub collect_stats :
    List (GoString × Stats) → GoMap ConnKey Stats → Outcome (GoMap ConnKey Stats)
collect_stats [] out = ok out
collect_stats ((inner_key, v) ∷ entries) out = do
  key ← conn_key_of_bytes inner_key
  collect_stats entries (put ConnKey-discrete out key v)

-- `if err := entries.Err(); err != nil { return nil, err }`
abbrev pub check {ℓ} : {A : Type ℓ} → Option Error → A → Outcome A
check none a = ok a
check (some e) a = err e

module _ (b : Bpf) where
  -- The deletions of a list of keys, errors ignored.
  unfoldable pub delete_connections : GoMap TupleKey TupleData → b.connection.Map → b.connection.Map
  delete_connections [] m = m
  delete_connections ((k, v) ∷ old) m = delete_connections old (b.connection.delete m k)

  unfoldable pub delete_stats : List GoString → b.inner.Map → b.inner.Map
  delete_stats [] m = m
  delete_stats (k ∷ ks) m = delete_stats ks (b.inner.delete m k)

  -- A write to one inner map, seen through its identity.
  abbrev pub set_inner : Kernel b → ℕ → b.inner.Map → Kernel b
  set_inner w fd m = record w { inner_maps = λ j. ite (ℕ_discrete fd j) m (w.inner_maps j) }

  unfoldable pub read_and_clean : Kernel b → ℕ → Kernel b × Outcome (GoMap ConnKey Stats)
  read_and_clean w fd =
      let (entries, e) = b.inner.iterate (w.inner_maps fd) in
      elim (collect_stats entries []) [
        | ok out ↦ (set_inner w fd (delete_stats (keys entries) (w.inner_maps fd)), check e out)
        | err x ↦ (w, err x)
        | panic ↦ (w, panic)
      ]

  unfoldable pub get_oldest_stats_and_cleanup :
      Kernel b → ℕ → Kernel b × Outcome (GoMap ConnKey Stats)
  unfolding read_and_clean
  get_oldest_stats_and_cleanup w stats_key = elim (b.outer.lookup w.stats_map stats_key) [
    | failure e ↦ (w, err e)
    | value fd ↦ read_and_clean w fd
  ]

  -- From the union of the keys to the end of the tick.
  unfoldable pub finish_tick :
      Env
      → Locals
      → Kernel b
      → GoMap TupleKey TupleData
      → GoMap ConnKey Stats
      → Locals × Kernel b × Outcome Report
  finish_tick env l w old stats = elim (group_stale old stats) [
    | err e ↦ (l, w, err e)
    | panic ↦ (l, w, panic)
    | ok (sni_keys, stale) ↦
        let (s1, previous, incs) =
          account_keys env.now_at stats stale (env.order sni_keys)
            (l.state, l.previous_failed_second) in
        let (s2, names) = delete_expired_snis env.now_end s1 in
        let clock = uint64 (l.current_ticker_clock + 1) in
        (
          record { state = s2; current_ticker_clock = clock; previous_failed_second = previous },
          record w { ticker_clock_map = (b.clock.put w.ticker_clock_map 0 clock).0 },
          ok (record { incs = incs; deleted = names }),
        )
  ]

  -- One `case <-ticks`. An error is logged and ends the tick; a panic ends the program.
  unfoldable pub tick : Env → Locals → Kernel b → Locals × Kernel b × Outcome Report
  tick env l w =
      let (entries, e) = b.connection.iterate w.connection_map in
      let old = old_connections l.current_ticker_clock entries [] in
      elim e [
        | some x ↦ (l, w, err x)
        | none ↦
            let w1 = record w { connection_map = delete_connections old w.connection_map } in
            let (w2, stats) =
              get_oldest_stats_and_cleanup w1 (uint64 (l.current_ticker_clock + 1) % 20) in
            elim stats [
              | err x ↦ (l, w2, err x)
              | panic ↦ (l, w2, panic)
              | ok out ↦ finish_tick env l w2 old out
            ]
      ]
