-- ===== src/Exporter/Conservation/Moves.antt =====
-- What one tick takes out of the ring and sends.
use connectivity_exporter.Prelude.{
  ℕ, ◌+◌, ◌%◌, ◌^◌, ◌≤◌, ◌<◌, ◌≡◌, refl, sym, subst, ap, ◌∙◌, arith, List, [], ◌∷◌, none,
}
use connectivity_exporter.Prelude.GoMap.{GoMap, keys}
use connectivity_exporter.Prelude.Results.{Error, ok, err}
use connectivity_exporter.Metrics.CounterVec.{Labels}
use connectivity_exporter.Metrics.Inc.{Inc}
use connectivity_exporter.Metrics.Apply.Kinds.{
  Kind, ConnKind, successful, rejected, rejected_by_client, amount, conn_amount,
}
use connectivity_exporter.Metrics.Loop.Totals.{total_of}
use connectivity_exporter.Packet.Connection.{ConnKey, ConnKey-discrete}
use connectivity_exporter.Packet.Ebpf.{Bpf, Kernel, Stats}
use connectivity_exporter.Packet.Tracker.{Env, Locals, Report, tick, collect_stats, get_or}
use connectivity_exporter.Packet.Tracker.Collected.{AllStats}
use connectivity_exporter.Packet.Tracker.Keys.{collect_stats-IsMap}
use connectivity_exporter.Packet.Tracker.Reports.{Ranges}
use connectivity_exporter.Packet.Ring.{IsRing, line}
use connectivity_exporter.Packet.Ring.Pops.{IsRing-same, tick-Shifts, tick-Pops}
use connectivity_exporter.Packet.Ring.Counted.{sum_below, counts_in, counted}
use connectivity_exporter.Packet.Ring.Counted.Ticks.{
  IsCount, counts_in-collected, counted-Shifts, tick-Leaves,
}
use connectivity_exporter.Exporter.{received}
use connectivity_exporter.Exporter.Says.{IsExact, or_none}
use connectivity_exporter.Exporter.Totals.{of_labels, count_of, conn_total, seconds_total}

pub count_of-IsCount : (kind : ConnKind) → IsCount (count_of kind)
count_of-IsCount successful = record { zeroed = refl; adds_up = λ v a. refl }
count_of-IsCount rejected = record { zeroed = refl; adds_up = λ v a. refl }
count_of-IsCount rejected_by_client = record { zeroed = refl; adds_up = λ v a. omega arith }

pub of_labels-sum :
    (g h i : ConnKey → ℕ) (key : Labels)
    → ((k : ConnKey) → i k ≡ g k + h k)
    → of_labels i key ≡ of_labels g key + of_labels h key
of_labels-sum g h i [] sums = omega arith
of_labels-sum g h i (a ∷ []) sums = omega arith
of_labels-sum g h i (a ∷ c ∷ []) sums = omega arith
of_labels-sum g h i (sni ∷ source ∷ dest ∷ []) sums =
    sums (record { source_ip = source; dest_ip = dest; sni = sni })
of_labels-sum g h i (a ∷ c ∷ d ∷ e ∷ key) sums = omega arith

pub of_labels-zero :
    (g : ConnKey → ℕ) (key : Labels) → ((k : ConnKey) → g k ≡ 0) → of_labels g key ≡ 0
of_labels-zero g [] zeroed = refl
of_labels-zero g (a ∷ []) zeroed = refl
of_labels-zero g (a ∷ c ∷ []) zeroed = refl
of_labels-zero g (sni ∷ source ∷ dest ∷ []) zeroed =
    zeroed (record { source_ip = source; dest_ip = dest; sni = sni })
of_labels-zero g (a ∷ c ∷ d ∷ e ∷ key) zeroed = refl

module _ (b : Bpf) (slots : ℕ → ℕ) where
  abbrev held : ConnKind → Locals → Kernel b → ConnKey → ℕ
  held kind l w = counted b slots (count_of kind) w l.current_ticker_clock

  held-same :
      (kind : ConnKind) (k : ConnKey) (l l' : Locals) (w w' : Kernel b)
      → l' ≡ l
      → w'.inner_maps ≡ w.inner_maps
      → held kind l' w' k ≡ held kind l w k
  unfolding counted line
  held-same kind k l l' w w' same maps =
      let at = λ (c : ℕ) (m : ℕ → b.inner.Map).
        sum_below 20 (λ i. count_of kind (counts_in b (m (slots ((c + 1 + i) % 20))) k)) in
      ap (λ t. at t.current_ticker_clock w'.inner_maps) same ∙ ap (at l.current_ticker_clock) maps

  -- A tick, with the counts that it takes out of the ring: the increments that it sends say so.
  pub record Moves (l l' : Locals) (w w' : Kernel b) (incs : List Inc) : Type 0 where
    pub ring : IsRing b slots w'
    pub clock : l'.current_ticker_clock ≤ l.current_ticker_clock + 1
    pub sent : ConnKey → Stats
    pub drained :
        (kind : ConnKind) (k : ConnKey)
        → held kind l w k ≡ held kind l' w' k + count_of kind (sent k)
    pub connections :
        (kind : ConnKind) (key : Labels)
        → total_of (conn_amount kind) key (received incs)
          ≡ of_labels (λ k. count_of kind (sent k)) key
    pub seconds : (kind : Kind) (key : Labels) → total_of (amount kind) key (received incs) ≤ 1

  module _ (complete : (m : b.inner.Map) → (b.inner.iterate m).1 ≡ none) where
    pub failing-Moves :
        (env : Env) (l l' : Locals) (w w' : Kernel b) (e : Error)
        → IsRing b slots w
        → tick b env l w ≡ (l', w', err e)
        → Moves l l' w w' []
    failing-Moves env l l' w w' e ring h =
        subst (λ t. Moves l t.0 w t.1 []) h
          (let a = tick-Leaves b complete env l w e (ap (λ t. t.2) h) in
            let w1 = (tick b env l w).1 in
            record {
              ring = IsRing-same b slots w w1 a.slots ring;
              clock = rw a.locals (omega arith);
              sent = λ k. (0, 0);
              drained = λ kind k. omega (
                arith,
                held-same kind k l (tick b env l w).0 w w1 a.locals a.maps,
                (count_of-IsCount kind).zeroed,
              );
              connections =
                  λ kind key. sym (of_labels-zero _ key (λ k. (count_of-IsCount kind).zeroed));
              seconds = λ kind key. omega arith;
            })

    module _ (env : Env) (l : Locals) (w : Kernel b) (r : Report) (ring : IsRing b slots w)
        (small : l.current_ticker_clock + 1 < 2 ^ 64) (ranges : Ranges env)
        (exact : (k : ConnKey) → held successful l w k + held rejected l w k < 2 ^ 53)
        (h : (tick b env l w).2 ≡ ok r) where
      collected-IsExact :
          (stats : GoMap ConnKey Stats)
          → collect_stats (b.inner.iterate (line b slots w l.current_ticker_clock 0)).0 []
            ≡ ok stats
          → AllStats IsExact stats
      unfolding AllStats
      collected-IsExact stats c k v e =
          let read =
            counts_in-collected b (line b slots w l.current_ticker_clock 0) stats k c
            ∙ ap or_none e in
          let s = tick-Shifts b slots env l w r ring small h in
          let out = λ (kind : ConnKind).
            counted-Shifts b complete slots (count_of kind) (count_of-IsCount kind) l
              (tick b env l w).0 w (tick b env l w).1 k s in
          omega (
            arith,
            exact k,
            out successful,
            out rejected,
            ap (count_of successful) read,
            ap (count_of rejected) read,
          )

      pub reporting-Moves : Moves l (tick b env l w).0 w (tick b env l w).1 r.incs
      reporting-Moves =
          let p = tick-Pops b slots env l w r ring small ranges h in
          let stats = p.reports.stats in
          let entries = (b.inner.iterate (line b slots w l.current_ticker_clock 0)).0 in
          let is_map = collect_stats-IsMap entries [] stats tt p.reports.collected in
          let all = collected-IsExact stats p.reports.collected in
          let perm = ranges (keys stats) in
          record {
            ring = p.shifts.ring;
            clock = omega (arith, p.shifts.clock);
            sent = λ k. get_or ConnKey-discrete stats k (0, 0);
            drained = λ kind k. omega (
              arith,
              counted-Shifts b complete slots (count_of kind) (count_of-IsCount kind) l
                  (tick b env l w).0 w (tick b env l w).1 k p.shifts,
              ap (count_of kind) (
                  counts_in-collected b (line b slots w l.current_ticker_clock 0) stats k
                    p.reports.collected),
            );
            connections = λ kind key.
                ap (λ incs. total_of (conn_amount kind) key (received incs)) p.reports.incs
                ∙ conn_total l.previous_failed_second stats (env.order (keys stats)) perm is_map all
                    kind key;
            seconds = λ kind key. omega (
              arith,
              ap (λ incs. total_of (amount kind) key (received incs)) p.reports.incs,
              seconds_total l.previous_failed_second stats (env.order (keys stats)) perm is_map all
                  kind key,
            );
          }
