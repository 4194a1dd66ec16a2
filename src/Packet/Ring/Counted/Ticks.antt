-- ===== src/Packet/Ring/Counted/Ticks.antt =====
-- The kernel's counts over a tick and over the kernel's writes.
use connectivity_exporter.Prelude.{
  ℕ, ◌+◌, ◌-◌, ◌%◌, ◌<◌, ◌≡◌, ◌≢◌, dec_lt, refl, ap, ◌∙◌, arith, [], ◌∷◌, Option, none, some,
}
use connectivity_exporter.Prelude.GoMap.{GoMap, get}
use connectivity_exporter.Prelude.GoString.{GoString, GoString-discrete}
use connectivity_exporter.Prelude.Results.{
  Error, Outcome, ok, err, panic, Reply, value, failure, found,
}
use connectivity_exporter.Packet.Connection.{ConnKey, ConnKey-discrete, TupleData}
use connectivity_exporter.Packet.Ebpf.{Bpf, Kernel, Stats, TupleKey}
use connectivity_exporter.Packet.Tracker.{
  Env, Locals, collect_stats, get_or, get_oldest_stats_and_cleanup, read_and_clean, finish_tick,
  group_stale, add_old_keys, add_stale, tick,
}
use connectivity_exporter.Packet.Tracker.Branches.{
  reading, next_slot, without_old, old_of, tick_iterate_error, tick_read_error, tick_read_panic,
  tick_read,
}
use connectivity_exporter.Packet.Tracker.Stale.{finish_tick_panic}
use connectivity_exporter.Packet.Ring.{IsRing, line}
use connectivity_exporter.Packet.Ring.Pops.{Shifts}
use connectivity_exporter.Packet.Ring.Counted.{counts_in, counted, Adds}
use connectivity_exporter.Packet.Ring.Counted.Sums.{sum_below-moved, sum_below-but}

pub no_entries :
    {V : Type 0} (m : GoMap GoString V)
    → ((k : GoString) → get GoString-discrete m k ≡ none)
    → m ≡ []
unfolding get
no_entries [] h = refl
no_entries ((k, v) ∷ m) h = absurd (ground (arith, h k))

-- The counts that a tick has collected from a map are those in it.
pub counts_in-collected :
    (b : Bpf) (m : b.inner.Map) (stats : GoMap ConnKey Stats) (k : ConnKey)
    → collect_stats (b.inner.iterate m).0 [] ≡ ok stats
    → counts_in b m k ≡ get_or ConnKey-discrete stats k (0, 0)
unfolding counts_in
counts_in-collected b m stats k h = rw (counts_in, h) refl

-- A count that is zero on no connections, and adds up.
pub record IsCount (count : Stats → ℕ) : Type 0 where
  pub zeroed : count (0, 0) ≡ 0
  pub adds_up : (v a : Stats) → count (v.0 + a.0, v.1 + a.1) ≡ count v + count a

-- Where a slot is on the line.
place_of : (clock slot : ℕ) → slot < 20 → (i : ℕ) × (i < 20) × ((clock + 1 + i) % 20 ≡ slot)
place_of clock slot lt = elim (dec_lt slot ((clock + 1) % 20)) [
  | yes before ↦ (slot + 20 - (clock + 1) % 20, omega arith, omega arith)
  | no after ↦ (slot - (clock + 1) % 20, omega arith, omega arith)
]

module _ (b : Bpf) (complete : (m : b.inner.Map) → (b.inner.iterate m).1 ≡ none) where
  pub counts_in-empty :
      (m : b.inner.Map) (k : ConnKey)
      → ((key : GoString) → found (b.inner.lookup m key) ≡ none)
      → counts_in b m k ≡ (0, 0)
  unfolding counts_in collect_stats get
  counts_in-empty m k h =
      let none_there =
        no_entries (b.inner.iterate m).0 (λ key. b.inner.get-iterate m key (complete m) ∙ h key) in
      rw (counts_in, none_there) refl

  -- The other places of the line are as they were.
  pub line-Adds :
      (slots : ℕ → ℕ) (clock i : ℕ) (added : ConnKey → Stats) (w w' : Kernel b)
      → IsRing b slots w
      → (a : Adds b slots added w w') → a.slot ≢ (clock + 1 + i) % 20
      → line b slots w' clock i ≡ line b slots w clock i
  unfolding line
  line-Adds slots clock i added w w' ring a ne =
      a.others (slots ((clock + 1 + i) % 20))
        (ring.apart a.slot ((clock + 1 + i) % 20) a.is_slot (omega arith) ne)

  pub sums-line :
      (slots : ℕ → ℕ) (clock i : ℕ) (added : ConnKey → Stats) (w w' : Kernel b) (k : ConnKey)
      → (a : Adds b slots added w w') → (clock + 1 + i) % 20 ≡ a.slot
      → counts_in b (line b slots w' clock i) k ≡ (
        (counts_in b (line b slots w clock i) k).0 + (added k).0,
        (counts_in b (line b slots w clock i) k).1 + (added k).1,
      )
  unfolding line
  sums-line slots clock i added w w' k a here = rw (line, here) (a.sums k)

  module _ (slots : ℕ → ℕ) (count : Stats → ℕ) (is_count : IsCount count) where
    -- A tick that reports takes the counts of its slot out of the ring.
    pub counted-Shifts :
        (l l' : Locals) (w w' : Kernel b) (k : ConnKey)
        → Shifts b slots l l' w w'
        → counted b slots count w' l'.current_ticker_clock k
            + count (counts_in b (line b slots w l.current_ticker_clock 0) k)
          ≡ counted b slots count w l.current_ticker_clock k
    unfolding counted
    counted-Shifts l l' w w' k s =
        let emptied : count (counts_in b (line b slots w' l'.current_ticker_clock 19) k) ≡ 0 =
          ap count (counts_in-empty _ k s.emptied) ∙ is_count.zeroed in
        omega (
          arith,
          sum_below-moved 19 (λ i. count (counts_in b (line b slots w l.current_ticker_clock i) k))
              (λ i. count (counts_in b (line b slots w' l'.current_ticker_clock i) k))
              (λ i lt. ap (λ m. count (counts_in b m k)) (s.shifted i lt)),
          emptied,
        )

    -- The kernel's writes add what they say.
    pub counted-Adds :
        (clock : ℕ) (added : ConnKey → Stats) (w w' : Kernel b) (k : ConnKey)
        → IsRing b slots w
        → Adds b slots added w w'
        → counted b slots count w' clock k ≡ counted b slots count w clock k + count (added k)
    unfolding counted
    counted-Adds clock added w w' k ring a =
        let (p, lt, here) = place_of clock a.slot a.is_slot in
        let count_at = λ (v : Kernel b) (i : ℕ). count (counts_in b (line b slots v clock i) k) in
        let placed : count_at w' p ≡ count_at w p + count (added k) =
          ap count (sums-line slots clock p added w w' k a here) ∙ is_count.adds_up _ (added k) in
        omega (
          arith,
          sum_below-but 20 p (count_at w) (count_at w') lt (λ i before ne.
              ap (λ m. count (counts_in b m k))
                (line-Adds slots clock i added w w' ring a
                  (λ e. ne (same_place before lt e here)))),
          placed,
        )
      where
        same_place :
            {i p : ℕ}
            → i < 20
            → p < 20
            → a.slot ≡ (clock + 1 + i) % 20
            → (clock + 1 + p) % 20 ≡ a.slot
            → i ≡ p
        same_place i_lt p_lt e here = omega arith

  read_and_clean_err :
      (w : Kernel b) (fd : ℕ) (e : Error)
      → (read_and_clean b w fd).1 ≡ err e
      → (read_and_clean b w fd).0 ≡ w
  unfolding read_and_clean
  read_and_clean_err w fd e h = ground (arith, complete (w.inner_maps fd))

  reading_err :
      (w : Kernel b) (slot : ℕ) (e : Error)
      → (get_oldest_stats_and_cleanup b w slot).1 ≡ err e
      → (get_oldest_stats_and_cleanup b w slot).0 ≡ w
  unfolding get_oldest_stats_and_cleanup
  reading_err w slot e h = by_slot (b.outer.lookup w.stats_map slot) refl
    where
      by_slot :
          (r : Reply ℕ)
          → b.outer.lookup w.stats_map slot ≡ r
          → (get_oldest_stats_and_cleanup b w slot).0 ≡ w
      by_slot (failure x) q = rw (get_oldest_stats_and_cleanup, q) refl
      by_slot (value fd) q =
          rw (get_oldest_stats_and_cleanup, q)
            (read_and_clean_err w fd e (rw (get_oldest_stats_and_cleanup, q) at h))

  finish_tick-no_err :
      (env : Env) (l : Locals) (w : Kernel b) (old : GoMap TupleKey TupleData)
      (stats : GoMap ConnKey Stats) (e : Error)
      → ¬ ((finish_tick b env l w old stats).2 ≡ err e)
  unfolding finish_tick group_stale add_old_keys add_stale
  finish_tick-no_err env l w [] stats e h = ground arith
  finish_tick-no_err env l w ((k, v) ∷ old) stats e h =
      cc (finish_tick_panic b env l w ((k, v) ∷ old) stats (omega arith))

  -- A tick that logs an error leaves the locals, the slots and their maps.
  pub record Leaves (l l' : Locals) (w w' : Kernel b) : Type 0 where
    pub locals : l' ≡ l
    pub slots : w'.stats_map ≡ w.stats_map
    pub maps : w'.inner_maps ≡ w.inner_maps

  pub tick-Leaves :
      (env : Env) (l : Locals) (w : Kernel b) (e : Error)
      → (tick b env l w).2 ≡ err e
      → Leaves l (tick b env l w).0 w (tick b env l w).1
  tick-Leaves env l w e h =
      by_reply (b.connection.iterate w.connection_map).1 refl (reading b l w).1 refl
    where
      by_reply :
          (o : Option Error)
          → (b.connection.iterate w.connection_map).1 ≡ o
          → (r : Outcome (GoMap ConnKey Stats)) → (reading b l w).1 ≡ r
          → Leaves l (tick b env l w).0 w (tick b env l w).1
      by_reply (some x) p r q =
          rw (tick_iterate_error b env l w x p)
            (record { locals = refl; slots = refl; maps = refl })
      by_reply none p (err x) q =
          let same = reading_err (without_old b l w) (next_slot b l) x q in
          rw (tick_read_error b env l w p x q) (record {
            locals = refl;
            slots = ap (λ v. v.stats_map) same;
            maps = ap (λ v. v.inner_maps) same;
          })
      by_reply none p panic q = absurd (cc (tick_read_panic b env l w p q))
      by_reply none p (ok stats) q =
          let read = tick_read b env l w p stats q in
          absurd (finish_tick-no_err env l (reading b l w).0 (old_of b l w) stats e (rw read at h))
