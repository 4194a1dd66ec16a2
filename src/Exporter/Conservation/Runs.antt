-- ===== src/Exporter/Conservation/Runs.antt =====
-- No connection is lost or counted twice on its way from the kernel to the counters.
use connectivity_exporter.Prelude.{sym, true, ℕ, suc, ◌≡◌, subst, ap, arith, List, [], none}
use connectivity_exporter.Prelude.Results.{ok}
use connectivity_exporter.Metrics.CounterVec.{CounterVec}
use connectivity_exporter.Metrics.Apply.Kinds.{successful, rejected, rejected_by_client, IsValid}
use connectivity_exporter.Metrics.Loop.{Event, Exported, receive_all}
use connectivity_exporter.Metrics.Loop.Totals.{receive_all-Totalled, all_have_text}
use connectivity_exporter.Promextra.{Bounds}
use connectivity_exporter.Promextra.Cumulative.{IsConsistent}
use connectivity_exporter.Packet.Connection.{ConnKey}
use connectivity_exporter.Packet.Ebpf.{Bpf, Stats}
use connectivity_exporter.Packet.Tracker.{Env, Report, tick}
use connectivity_exporter.Packet.Tracker.Reports.{Ranges}
use connectivity_exporter.Packet.Ring.{IsRing}
use connectivity_exporter.Packet.Ring.Counted.{counted}
use connectivity_exporter.Packet.Ring.Counted.Sums.{sum_below-zeros}
use connectivity_exporter.Exporter.Incs.{labels_of}
use connectivity_exporter.Exporter.Totals.{count_of}
use connectivity_exporter.Metrics.Loop.{incs_of}
use connectivity_exporter.Exporter.Conservation.{World, Exporting, in_ring, Fits, Conserves}
use connectivity_exporter.Exporter.Conservation.Kept.{
  plus, Kept, Fits-before, kept-exact, step-Kept, events-Ready, delete_expired-noop,
}
use connectivity_exporter.Exporter.Conservation.Moves.{
  count_of-IsCount, of_labels-zero, Moves, failing-Moves, reporting-Moves,
}

module _ (C : CounterVec) (f : Bounds) (b : Bpf) (slots : ℕ → ℕ)
    (complete : (m : b.inner.Map) → (b.inner.iterate m).1 ≡ none) (x : World C f b)
    (env_at : ℕ → Env) (ranges : (n : ℕ) → Ranges (env_at n)) (ring : IsRing b slots x.kernel)
    (valid : IsValid C x.exported.counters) (consistent : IsConsistent f x.exported.execution) where
  here-Kept : Kept C f b slots complete x 0 (λ k. (0, 0)) x
  here-Kept = record {
    ring = ring;
    clock = omega arith;
    valid = valid;
    consistent = consistent;
    seconds = λ kind key. omega arith;
    connections = λ kind key. omega (
      arith,
      of_labels-zero (λ k. count_of kind (0, 0)) key (λ k. (count_of-IsCount kind).zeroed),
    );
  }

  pub Exporting-Kept :
      {n : ℕ} {written : ConnKey → Stats} {y : World C f b}
      → Exporting C f b slots env_at x n written y
      → Fits C f b slots x n written
      → Kept C f b slots complete x n written y
  Exporting-Kept Exporting.here fits = here-Kept
  Exporting-Kept
        (Exporting.reporting {n} {written} {y} run r l w1 w2 events z added t same returned adds)
        fits =
      let kept = Exporting-Kept run (Fits-before C f b slots complete x n written added fits) in
      let m =
        reporting-Moves b slots complete (env_at n) y.locals y.kernel r kept.ring
          (omega (arith, kept.clock, fits.clock)) (ranges n)
          (kept-exact C f b slots complete x n written added y kept fits) (ap (λ o. o.2) t) in
      let after =
        step-Kept C f b slots complete x n written added y kept fits l w1 w2 r.incs events z
          (subst (λ o. Moves b slots y.locals o.0 y.kernel o.1 r.incs) t m) same returned adds in
      subst
        (λ e.
          Kept C f b slots complete x (suc n) (plus written added)
            (record { locals = l; kernel = w2; exported = e }))
        (sym (delete_expired-noop C f b r.deleted z after.valid)) after
  Exporting-Kept
        (Exporting.failing {n} {written} {y} run e l w1 w2 events z added t same returned adds)
        fits =
      let kept = Exporting-Kept run (Fits-before C f b slots complete x n written added fits) in
      step-Kept C f b slots complete x n written added y kept fits l w1 w2 [] events z
        (failing-Moves b slots complete (env_at n) y.locals l y.kernel w1 e kept.ring t) same
        returned adds

  none_by_client : (y : World C f b) (k : ConnKey) → in_ring C f b slots y rejected_by_client k ≡ 0
  unfolding counted
  none_by_client y k = sum_below-zeros 20

  -- In a run of the exporter over any ticks that report or log an error, with any snapshots
  -- received between the increments and any counts written by the kernel between the ticks, each
  -- time in the slot of whatever clock it has, each successful and each rejected connection of a
  -- key is accounted for once: what the counter of the key shows and what is in the ring for it
  -- has grown by exactly what the kernel has counted, and the counter of rejections by the client
  -- shows what it did. It starts from a ring of separate slots, valid counters and a consistent
  -- histogram, the iterations of the slots are complete, the runtime ranges over each key of a
  -- map once, no clock wraps and every count stays below 2 ^ 53.
  pub Exporting-Conserves :
      (n : ℕ) (written : ConnKey → Stats) (y : World C f b)
      → Fits C f b slots x n written
      → Exporting C f b slots env_at x n written y
      → Conserves C f b slots x written y
  Exporting-Conserves n written y fits run =
      let kept = Exporting-Kept run fits in
      record {
        successful = λ k. kept.connections successful (labels_of k);
        rejected = λ k. kept.connections rejected (labels_of k);
        by_client = λ k. omega (
          arith,
          kept.connections rejected_by_client (labels_of k),
          none_by_client x k,
          none_by_client y k,
        );
      }

  -- After a run of the exporter over any ticks that report or log an error, with any snapshots
  -- received between the increments and any counts written by the kernel between the ticks, each
  -- time in the slot of whatever clock it has, a tick that reports, and whose increments have an
  -- SNI and addresses in valid UTF-8, has them taken by Apply without a panic, with any snapshots
  -- between them. It starts from a ring of separate slots, valid counters and a consistent
  -- histogram, the iterations of the slots are complete, the runtime ranges over each key of a map
  -- once, no clock wraps and every count stays below 2 ^ 53, this tick included.
  pub Exporting-receives :
      (n : ℕ) (written : ConnKey → Stats) (y : World C f b) (r : Report) (events : List Event)
      → Fits C f b slots x (suc n) (plus written (λ k. (0, 0)))
      → Exporting C f b slots env_at x n written y
      → (tick b (env_at n) y.locals y.kernel).2 ≡ ok r
      → incs_of events ≡ r.incs
      → all_have_text C events ≡ true
      → (z : Exported C f) × (receive_all C f events y.exported ≡ ok z)
  Exporting-receives n written y r events fits run h same texts =
      let kept =
        Exporting-Kept run (Fits-before C f b slots complete x n written (λ k. (0, 0)) fits) in
      let m =
        reporting-Moves b slots complete (env_at n) y.locals y.kernel r kept.ring
          (omega (arith, kept.clock, fits.clock)) (ranges n)
          (kept-exact C f b slots complete x n written (λ k. (0, 0)) y kept fits) h in
      let ready =
        events-Ready C f b slots complete x n written (λ k. (0, 0)) y kept fits
          (tick b (env_at n) y.locals y.kernel).0 (tick b (env_at n) y.locals y.kernel).1
          (tick b (env_at n) y.locals y.kernel).1 r.incs events y.exported m same texts in
      let a = receive_all-Totalled C f events y.exported ready in (a.after, a.returns)
