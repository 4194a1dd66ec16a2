-- ===== src/Exporter/Conservation/Delivered.antt =====
-- Twenty ticks bring everything in the ring to the counters.
use connectivity_exporter.Prelude.{
  ℕ, zero, suc, ◌+◌, ◌≤◌, ◌<◌, ◌≡◌, ap, ap₂, ◌∙◌, sym, arith, dec_lt, none, ◌%◌, ℕ_discrete,
}
use connectivity_exporter.Metrics.CounterVec.{CounterVec}
use connectivity_exporter.Metrics.Apply.Kinds.{ConnKind, successful, rejected, IsValid}
use connectivity_exporter.Promextra.{Bounds}
use connectivity_exporter.Promextra.Cumulative.{IsConsistent}
use connectivity_exporter.Packet.Connection.{ConnKey}
use connectivity_exporter.Packet.Ebpf.{Bpf, Kernel, Stats}
use connectivity_exporter.Packet.Tracker.{Env, Locals}
use connectivity_exporter.Packet.Tracker.Reports.{Ranges}
use connectivity_exporter.Packet.Ring.{IsRing, line}
use connectivity_exporter.Packet.Ring.Pops.{Shifts}
use connectivity_exporter.Packet.Ring.Delivery.{Shifts-eq}
use connectivity_exporter.Packet.Ring.Counted.{counts_in, counted, Adds}
use connectivity_exporter.Packet.Ring.Counted.Sums.{sum_below-same, sum_below-zeros}
use connectivity_exporter.Packet.Ring.Counted.Ticks.{line-Adds, sums-line, counts_in-empty}
use connectivity_exporter.Exporter.Incs.{labels_of}
use connectivity_exporter.Exporter.Totals.{count_of}
use connectivity_exporter.Exporter.Conservation.{World, Exporting, in_ring, connections_at, Fits}
use connectivity_exporter.Exporter.Conservation.Kept.{Fits-before}
use connectivity_exporter.Exporter.Conservation.Moves.{count_of-IsCount}
use connectivity_exporter.Exporter.Conservation.Runs.{Exporting-Kept, Exporting-Conserves}

-- The last ticks of a run, so many, have each reported, and the kernel has counted no connection
-- after any of them.
abbrev pub Drains :
    {C : CounterVec} {f : Bounds} {b : Bpf} {slots : ℕ → ℕ} {env_at : ℕ → Env} {x : World C f b}
    → ℕ
    → {n : ℕ} {written : ConnKey → Stats} {y : World C f b}
    → Exporting C f b slots env_at x n written y
    → Type 0
Drains zero run = Unit
Drains (suc k) Exporting.here = ⊥
Drains (suc k)
      (Exporting.reporting {n = n} {written = written} {y = y} run r l w1 w2 events z added t same
        returned adds) =
    ((key : ConnKey) → added key ≡ (0, 0)) × Drains k {n = n} {written = written} {y = y} run
Drains (suc k) (Exporting.failing run e l w1 w2 events z added t same returned adds) = ⊥

module _ (b : Bpf) (slots : ℕ → ℕ)
    (complete : (m : b.inner.Map) → (b.inner.iterate m).1 ≡ none) where
  -- The last places of the delay line, so many, hold no counts.
  abbrev Emptied : ℕ → Locals → Kernel b → Type 0
  Emptied n l w =
      (i : ℕ) (key : ConnKey)
      → 20 ≤ i + n
      → i < 20
      → counts_in b (line b slots w l.current_ticker_clock i) key ≡ (0, 0)

  -- A tick moves them, and puts one more at the end.
  Shifts-Emptied :
      (n : ℕ) (l l' : Locals) (w w' : Kernel b)
      → Shifts b slots l l' w w'
      → Emptied n l w
      → Emptied (suc n) l' w'
  Shifts-Emptied n l l' w w' s h i key le lt = elim (dec_lt i 19) [
    | yes before ↦
        ap (λ m. counts_in b m key) (s.shifted i before) ∙ h (i + 1) key (omega arith) (omega arith)
    | no last ↦
        let end : 19 ≡ i = omega arith in
        ap (λ j. counts_in b (line b slots w' l'.current_ticker_clock j) key) (sym end)
        ∙ counts_in-empty b complete _ key s.emptied
  ]

  -- Writes that add nothing leave them.
  Adds-Emptied :
      (n : ℕ) (l : Locals) (w w' : Kernel b) (added : ConnKey → Stats)
      → IsRing b slots w
      → Adds b slots added w w'
      → ((key : ConnKey) → added key ≡ (0, 0))
      → Emptied n l w
      → Emptied n l w'
  Adds-Emptied n l w w' added ring adds quiet h i key le lt =
      let clock = l.current_ticker_clock in
      elim (ℕ_discrete adds.slot ((clock + 1 + i) % 20)) [
        | no ne ↦
            ap (λ m. counts_in b m key) (line-Adds b complete slots clock i added w w' ring adds ne)
            ∙ h i key le lt
        | yes here ↦
            sums-line b complete slots clock i added w w' key adds (sym here)
            ∙ ap₂ (λ (v a : Stats). (v.0 + a.0, v.1 + a.1)) (h i key le lt) (quiet key)
      ]

module _ (C : CounterVec) (f : Bounds) (b : Bpf) (slots : ℕ → ℕ)
    (complete : (m : b.inner.Map) → (b.inner.iterate m).1 ≡ none) (x : World C f b)
    (env_at : ℕ → Env) (ranges : (n : ℕ) → Ranges (env_at n)) (ring : IsRing b slots x.kernel)
    (valid : IsValid C x.exported.counters) (consistent : IsConsistent f x.exported.execution) where
  Drains-Emptied :
      (k : ℕ) {n : ℕ} {written : ConnKey → Stats} {y : World C f b}
      (run : Exporting C f b slots env_at x n written y)
      → Fits C f b slots x n written
      → Drains k run
      → Emptied b slots complete k y.locals y.kernel
  Drains-Emptied zero run fits quiet = λ i key le lt. absurd (omega arith)
  Drains-Emptied (suc k) Exporting.here fits quiet = elim quiet [ ]
  Drains-Emptied (suc k)
        (Exporting.reporting {n = n} {written = written} {y = y} run r l w1 w2 events z added t same
          returned adds)
        fits quiet =
      let before = Fits-before C f b slots complete x n written added fits in
      let kept =
        Exporting-Kept C f b slots complete x env_at ranges ring valid consistent run before in
      let s =
        Shifts-eq b slots (env_at n) y.locals l y.kernel w1 r kept.ring
          (omega (arith, kept.clock, fits.clock)) t in
      Adds-Emptied b slots complete (suc k) l w1 w2 added s.ring adds quiet.0 (
        Shifts-Emptied b slots complete k y.locals l y.kernel w1 s
          (Drains-Emptied k {n = n} {written = written} {y = y} run before quiet.1))
  Drains-Emptied (suc k) (Exporting.failing run e l w1 w2 events z added t same returned adds) fits
        quiet =
      elim quiet [ ]

  drained :
      (kind : ConnKind) (key : ConnKey) (y : World C f b)
      → Emptied b slots complete 20 y.locals y.kernel
      → in_ring C f b slots y kind key ≡ 0
  unfolding counted
  drained kind key y h =
      sum_below-same 20
        (λ i.
          count_of kind (counts_in b (line b slots y.kernel y.locals.current_ticker_clock i) key))
        (λ i. 0)
        (λ i lt. ap (count_of kind) (h i key (omega arith) lt) ∙ (count_of-IsCount kind).zeroed)
      ∙ sum_below-zeros 20

  -- At the end of a run of the exporter over any ticks that report or log an error, with any
  -- snapshots received between the increments and any counts written by the kernel between the
  -- ticks, each time in the slot of whatever clock it has, if its last twenty ticks have each
  -- reported and the kernel has counted nothing after any of them, all is exported: the counters
  -- of a key's successful and of its rejected connections have gained exactly what was in the
  -- ring at the start of the run and what the kernel has counted in it. It starts from a ring of
  -- separate slots, valid counters and a consistent histogram, the iterations of the slots are
  -- complete, the runtime ranges over each key of a map once, no clock wraps and every count
  -- stays below 2 ^ 53.
  pub Drains-Delivers :
      (n : ℕ) (written : ConnKey → Stats) (y : World C f b) (key : ConnKey)
      (run : Exporting C f b slots env_at x n written y)
      → Fits C f b slots x n written
      → Drains 20 run
      → (connections_at C f b y successful (labels_of key)
          ≡ connections_at C f b x successful (labels_of key)
            + in_ring C f b slots x successful key
            + (written key).0)
        × (connections_at C f b y rejected (labels_of key)
            ≡ connections_at C f b x rejected (labels_of key)
              + in_ring C f b slots x rejected key
              + (written key).1)
  Drains-Delivers n written y key run fits quiet =
      let c =
        Exporting-Conserves C f b slots complete x env_at ranges ring valid consistent n written y
          fits run in
      let empty = Drains-Emptied 20 run fits quiet in
      (
        omega (arith, c.successful key, drained successful key y empty),
        omega (arith, c.rejected key, drained rejected key y empty),
      )
