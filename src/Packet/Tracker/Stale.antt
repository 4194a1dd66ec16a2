-- ===== src/Packet/Tracker/Stale.antt =====
-- Old connections, in one tick of `TrackConnections`.
use connectivity_exporter.Prelude.{
  ℕ, ◌+◌, ◌<◌, ◌^◌, ◌≡◌, ◌↔◌, refl, ap, ◌∙◌, arith, Bool, true, false, ◌||◌, List, [], ◌∷◌, Option,
  none, some, if◌then◌else◌, length,
}
use connectivity_exporter.Prelude.GoMap.{GoMap, get, put, get-put, IsMap}
use connectivity_exporter.Prelude.Results.{Outcome, ok, err, panic, found}
use connectivity_exporter.Packet.Connection.{
  ConnKey, TupleData, is_connection_old, stats_seconds_count,
}
use connectivity_exporter.Packet.Bytes.{CTupleData, tuple_data_from_c}
use connectivity_exporter.Packet.Ebpf.{Bpf, Kernel, Stats, TupleKey, TupleKey-discrete}
use connectivity_exporter.Packet.Tracker.{
  Env, Locals, get_oldest_stats_and_cleanup, read_and_clean, finish_tick, tick, old_connections,
  delete_connections, group_stale, add_old_keys, conn_key_of_tuple,
}
use connectivity_exporter.Packet.Tracker.Branches.{
  without_old, reading, old_of, tick_read, tick_read_error, tick_read_panic,
}

-- Below the wrap of uint64, a connection is old exactly if its first packet came more than twenty
-- ticks before the clock.
pub is_connection_old_iff :
    (first clock : ℕ)
    → first + stats_seconds_count < 2 ^ 64
    → (is_connection_old first clock ≡ true) ↔ (first + 20 < clock)
unfolding is_connection_old
is_connection_old_iff first clock small = ground arith

abbrev pub is_old : ℕ → CTupleData → Bool
is_old clock v = is_connection_old v.ticker_clock_first_packet clock

abbrev pub drop_old : ℕ → Option CTupleData → Option CTupleData
drop_old clock none = none
drop_old clock (some v) = if is_old clock v then none else some v

abbrev pub any_old : ℕ → List (TupleKey × CTupleData) → Bool
any_old clock [] = false
any_old clock ((k, v) ∷ entries) = is_old clock v || any_old clock entries

abbrev pick_old : ℕ → Option CTupleData → Option TupleData → Option TupleData
pick_old clock none before = before
pick_old clock (some v) before = if is_old clock v then some (tuple_data_from_c v) else before

first_packet_lem :
    (v : CTupleData) → (tuple_data_from_c v).ticker_clock_first_packet ≡ v.ticker_clock_first_packet
unfolding tuple_data_from_c
first_packet_lem v = refl

get-old_connections :
    (clock : ℕ) (entries : List (TupleKey × CTupleData)) (acc : GoMap TupleKey TupleData)
    (k : TupleKey)
    → IsMap TupleKey-discrete entries
    → get TupleKey-discrete (old_connections clock entries acc) k
      ≡ pick_old clock (get TupleKey-discrete entries k) (get TupleKey-discrete acc k)
unfolding old_connections get
get-old_connections clock [] acc k h = refl
get-old_connections clock ((j, v) ∷ entries) acc k h = ground (
  arith,
  first_packet_lem v,
  get-put TupleKey-discrete acc j k (tuple_data_from_c v),
  get-old_connections clock entries
      (if is_old clock v then put TupleKey-discrete acc j (tuple_data_from_c v) else acc) k h.1,
)

abbrev unless_some {ℓ κ} : {A : Type ℓ} {B : Type κ} → Option A → Option B → Option B
unless_some none o = o
unless_some (some a) o = none

pick_old-drop_old :
    (clock : ℕ) (o : Option CTupleData) → unless_some (pick_old clock o none) o ≡ drop_old clock o
pick_old-drop_old clock o = ground arith

-- A list of entries with an old one gives a map that is not empty.
length-put-pos :
    (m : GoMap TupleKey TupleData) (k : TupleKey) (v : TupleData)
    → 0 < length (put TupleKey-discrete m k v)
unfolding put
length-put-pos [] k v = omega arith
length-put-pos ((j, w) ∷ m) k v = ground arith

old_connections_pos_of_pos :
    (clock : ℕ) (entries : List (TupleKey × CTupleData)) (acc : GoMap TupleKey TupleData)
    → 0 < length acc
    → 0 < length (old_connections clock entries acc)
unfolding old_connections
old_connections_pos_of_pos clock [] acc h = h
old_connections_pos_of_pos clock ((k, v) ∷ entries) acc h =
    old_connections_pos_of_pos clock entries _
      (ground (arith, length-put-pos acc k (tuple_data_from_c v)))

old_connections_pos :
    (clock : ℕ) (entries : List (TupleKey × CTupleData)) (acc : GoMap TupleKey TupleData)
    → any_old clock entries ≡ true
    → 0 < length (old_connections clock entries acc)
unfolding old_connections
old_connections_pos clock [] acc h = cc
old_connections_pos clock ((k, v) ∷ entries) acc h = ground (
  arith,
  first_packet_lem v,
  old_connections_pos clock entries acc,
  old_connections_pos_of_pos clock entries (put TupleKey-discrete acc k (tuple_data_from_c v)),
  length-put-pos acc k (tuple_data_from_c v),
)

group_stale_panic :
    (old : GoMap TupleKey TupleData) (stats : GoMap ConnKey Stats)
    → 0 < length old
    → group_stale old stats ≡ panic
unfolding group_stale add_old_keys conn_key_of_tuple
group_stale_panic [] stats h = absurd (omega arith)
group_stale_panic ((k, v) ∷ old) stats h = refl

module _ (b : Bpf) where
  lookup-delete_connections :
      (old : GoMap TupleKey TupleData) (m : b.connection.Map) (k : TupleKey)
      → found (b.connection.lookup (delete_connections b old m) k)
        ≡ unless_some (get TupleKey-discrete old k) (found (b.connection.lookup m k))
  unfolding delete_connections get
  lookup-delete_connections [] m k = refl
  lookup-delete_connections ((j, v) ∷ old) m k = ground (
    arith,
    lookup-delete_connections old (b.connection.delete m j) k,
    b.connection.lookup-delete m j k,
  )

  pub finish_tick_panic :
      (env : Env) (l : Locals) (w : Kernel b) (old : GoMap TupleKey TupleData)
      (stats : GoMap ConnKey Stats)
      → 0 < length old
      → finish_tick b env l w old stats ≡ (l, w, panic)
  unfolding finish_tick
  finish_tick_panic env l w old stats h = rw (finish_tick, group_stale_panic old stats h)

  connection_map-finish_tick :
      (env : Env) (l : Locals) (w : Kernel b) (old : GoMap TupleKey TupleData)
      (stats : GoMap ConnKey Stats)
      → (finish_tick b env l w old stats).1.connection_map ≡ w.connection_map
  unfolding finish_tick
  connection_map-finish_tick env l w old stats = ground arith

  connection_map-get_oldest :
      (w : Kernel b) (k : ℕ)
      → (get_oldest_stats_and_cleanup b w k).0.connection_map ≡ w.connection_map
  unfolding get_oldest_stats_and_cleanup read_and_clean
  connection_map-get_oldest w k = ground arith

  module _ (env : Env) (l : Locals) (w : Kernel b)
      (complete : (b.connection.iterate w.connection_map).1 ≡ none) where
    connection_map-tick : (tick b env l w).1.connection_map ≡ (without_old b l w).connection_map
    connection_map-tick = by_reply (reading b l w).1 refl
      where
        by_reply :
            (o : Outcome (GoMap ConnKey Stats))
            → (reading b l w).1 ≡ o
            → (tick b env l w).1.connection_map ≡ (without_old b l w).connection_map
        by_reply (ok stats) q =
            rw (tick_read b env l w complete stats q)
              (connection_map-finish_tick env l _ _ stats ∙ connection_map-get_oldest _ _)
        by_reply (err e) q =
            rw (tick_read_error b env l w complete e q) (connection_map-get_oldest _ _)
        by_reply panic q = rw (tick_read_panic b env l w complete q) (connection_map-get_oldest _ _)

-- When the connections could be iterated, a tick removes from the kernel's map exactly the
-- connections that are old at the tracker's clock, whether the tick then reports, fails or panics.
pub tick-drop_old :
    (b : Bpf) (env : Env) (l : Locals) (w : Kernel b) (k : TupleKey)
    → (b.connection.iterate w.connection_map).1 ≡ none
    → found (b.connection.lookup (tick b env l w).1.connection_map k)
      ≡ drop_old l.current_ticker_clock (found (b.connection.lookup w.connection_map k))
unfolding get
tick-drop_old b env l w k complete =
    ap (λ m. found (b.connection.lookup m k)) (connection_map-tick b env l w complete)
    ∙ lookup-delete_connections b (old_of b l w) w.connection_map k
    ∙ ap (λ o. unless_some o here)
        (get-old_connections clock (b.connection.iterate w.connection_map).0 [] k
            (b.connection.iterate-IsMap w.connection_map complete)
          ∙ ap (λ o. pick_old clock o none) (b.connection.get-iterate w.connection_map k complete))
    ∙ pick_old-drop_old clock here
  where
    clock : ℕ
    clock = l.current_ticker_clock

    here : Option CTupleData
    here = found (b.connection.lookup w.connection_map k)

-- A tick that has read its connections and statistics with no error panics if some connection is
-- old.
pub tick_panics :
    (b : Bpf) (env : Env) (l : Locals) (w : Kernel b) (stats : GoMap ConnKey Stats)
    → (b.connection.iterate w.connection_map).1 ≡ none
    → any_old l.current_ticker_clock (b.connection.iterate w.connection_map).0 ≡ true
    → (reading b l w).1 ≡ ok stats
    → (tick b env l w).2 ≡ panic
tick_panics b env l w stats complete old read = rw (tick_read b env l w complete stats read) (
    ap (λ t. t.2)
      (finish_tick_panic b env l _ _ stats (old_connections_pos l.current_ticker_clock _ [] old)))
