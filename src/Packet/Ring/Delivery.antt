-- ===== src/Packet/Ring/Delivery.antt =====
-- When what the kernel writes is reported: runs of the delay line.
use connectivity_exporter.Prelude.{
  ℕ, suc, ◌+◌, ◌%◌, ◌^◌, ◌≤◌, ◌<◌, ◌≡◌, sym, subst, ap, ◌∙◌, arith, List, [], map, length,
}
use connectivity_exporter.Prelude.GoMap.{GoMap, keys}
use connectivity_exporter.Prelude.Results.{Error, ok, err}
use connectivity_exporter.Packet.Connection.{ConnKey}
use connectivity_exporter.Packet.Ebpf.{Bpf, Kernel, Stats}
use connectivity_exporter.Packet.Tracker.{Env, Locals, Report, tick, collect_stats}
use connectivity_exporter.Packet.Tracker.Reports.{Ranges, fresh_verdict}
use connectivity_exporter.Packet.Ring.{IsRing, line, Writes, Rounds}
use connectivity_exporter.Packet.Ring.Pops.{
  IsRing-same, slots_apart, Shifts, tick-Shifts, tick-Pops,
}
use connectivity_exporter.Packet.Ring.Failures.{Keeps, tick-Keeps}

module _ (b : Bpf) (slots : ℕ → ℕ) where
  -- The kernel's writes leave the line but for its end.
  pub line-Writes :
      (clock : ℕ) (w w' : Kernel b) (i : ℕ)
      → IsRing b slots w
      → Writes b slots clock w w'
      → i < 19
      → line b slots w' clock i ≡ line b slots w clock i
  unfolding line
  line-Writes clock w w' i ring writes lt =
      writes.others (slots ((clock + 1 + i) % 20))
        (slots_apart b slots w clock (clock + 1 + i) ring (omega arith))

  -- What a run leaves: `n` reports later, each map of the line is `n` places nearer to its start.
  record Moved (n : ℕ) (l l' : Locals) (w w' : Kernel b) : Type 0 where
    clock : l'.current_ticker_clock ≡ l.current_ticker_clock + n
    ring : IsRing b slots w'
    moved :
        (i : ℕ)
        → 0 < i
        → i + n ≤ 18
        → line b slots w' l'.current_ticker_clock i ≡ line b slots w l.current_ticker_clock (i + n)

  reporting-Moved :
      (n : ℕ) (l l1 l2 : Locals) (w w1 w2 w3 : Kernel b)
      → Moved n l l1 w w1
      → Shifts b slots l1 l2 w1 w2
      → Writes b slots l2.current_ticker_clock w2 w3
      → Moved (suc n) l l2 w w3
  reporting-Moved n l l1 l2 w w1 w2 w3 m s writes = record {
    clock = omega (arith, s.clock, m.clock);
    ring = IsRing-same b slots w2 w3 writes.same_slots s.ring;
    moved = λ i pos le.
        line-Writes l2.current_ticker_clock w2 w3 i s.ring writes (omega arith)
        ∙ s.shifted i (omega arith)
        ∙ m.moved (i + 1) (omega arith) (omega arith)
        ∙ ap (line b slots w l.current_ticker_clock) (omega arith);
  }

  failing-Moved :
      (n : ℕ) (l l1 l2 : Locals) (w w1 w2 w3 : Kernel b)
      → Moved n l l1 w w1
      → Keeps b slots l1 l2 w1 w2
      → Writes b slots l2.current_ticker_clock w2 w3
      → Moved n l l2 w w3
  failing-Moved n l l1 l2 w w1 w2 w3 m k writes =
      let same : l2.current_ticker_clock ≡ l1.current_ticker_clock =
        ap (λ t. t.current_ticker_clock) k.locals in
      record {
        clock = same ∙ m.clock;
        ring = IsRing-same b slots w2 w3 writes.same_slots k.ring;
        moved = λ i pos le.
            line-Writes l2.current_ticker_clock w2 w3 i k.ring writes (omega arith)
            ∙ ap (λ c. line b slots w2 c i) same
            ∙ k.kept i pos (omega arith)
            ∙ m.moved i pos le;
      }

  pub Shifts-eq :
      (env : Env) (l l' : Locals) (w w' : Kernel b) (r : Report)
      → IsRing b slots w
      → l.current_ticker_clock + 1 < 2 ^ 64
      → tick b env l w ≡ (l', w', ok r)
      → Shifts b slots l l' w w'
  Shifts-eq env l l' w w' r ring small e =
      subst (λ t. Shifts b slots l t.0 w t.1) e
        (tick-Shifts b slots env l w r ring small (ap (λ t. t.2) e))

  Keeps-eq :
      (env : Env) (l l' : Locals) (w w' : Kernel b) (x : Error)
      → IsRing b slots w
      → l.current_ticker_clock + 1 < 2 ^ 64
      → tick b env l w ≡ (l', w', err x)
      → Keeps b slots l l' w w'
  Keeps-eq env l l' w w' x ring small e =
      subst (λ t. Keeps b slots l t.0 w t.1) e
        (tick-Keeps b slots env l w x ring small (ap (λ t. t.2) e))

  Rounds-Moved :
      (l : Locals) (w : Kernel b) {rs : List Report} {l' : Locals} {w' : Kernel b}
      → IsRing b slots w
      → Rounds b slots l w rs l' w'
      → l.current_ticker_clock + length rs + 1 < 2 ^ 64
      → Moved (length rs) l l' w w'
  Rounds-Moved l w ring Rounds.here small = record {
    clock = omega arith;
    ring = ring;
    moved = λ i pos le. ap (line b slots w l.current_ticker_clock) (omega arith);
  }
  Rounds-Moved l w ring (Rounds.reporting {rs} {l1} {l2} {w1} {w2} {w3} run env r e writes) small =
      let m = Rounds-Moved l w ring run (omega arith) in
      reporting-Moved (length rs) l l1 l2 w w1 w2 w3 m
        (Shifts-eq env l1 l2 w1 w2 r m.ring (omega (arith, m.clock)) e) writes
  Rounds-Moved l w ring (Rounds.failing {rs} {l1} {l2} {w1} {w2} {w3} run env x e writes) small =
      let m = Rounds-Moved l w ring run small in
      failing-Moved (length rs) l l1 l2 w w1 w2 w3 m
        (Keeps-eq env l1 l2 w1 w2 x m.ring (omega (arith, m.clock)) e) writes

  -- Nineteen ticks that report, the first at once, with the kernel's writes after each tick and any
  -- ticks that fail between the first and the last.
  pub record Cycle (l : Locals) (w : Kernel b) (l' : Locals) (w' : Kernel b) : Type 0 where
    pub l1 : Locals
    pub l2 : Locals
    pub w1 : Kernel b
    pub w2 : Kernel b
    pub w3 : Kernel b
    pub w4 : Kernel b
    pub first_env : Env
    pub first_report : Report
    pub first : tick b first_env l w ≡ (l1, w1, ok first_report)
    pub first_writes : Writes b slots l1.current_ticker_clock w1 w2
    pub reports : List Report
    pub seventeen : length reports ≡ 17
    pub rounds : Rounds b slots l1 w2 reports l2 w3
    pub last_env : Env
    pub last_report : Report
    pub last : tick b last_env l2 w3 ≡ (l', w4, ok last_report)
    pub last_writes : Writes b slots l'.current_ticker_clock w4 w'

  Cycle-line :
      (l l' : Locals) (w w' : Kernel b)
      → IsRing b slots w
      → l.current_ticker_clock + 20 < 2 ^ 64
      → Cycle l w l' w'
      → (l'.current_ticker_clock ≡ l.current_ticker_clock + 19)
        × IsRing b slots w'
        × (line b slots w' l'.current_ticker_clock 0 ≡ line b slots w l.current_ticker_clock 19)
  Cycle-line l l' w w' ring small c =
      let a = Shifts-eq c.first_env l c.l1 w c.w1 c.first_report ring (omega arith) c.first in
      let ring2 = IsRing-same b slots c.w1 c.w2 c.first_writes.same_slots a.ring in
      let m = Rounds-Moved c.l1 c.w2 ring2 c.rounds (omega (arith, a.clock, c.seventeen)) in
      let z =
        Shifts-eq c.last_env c.l2 l' c.w3 c.w4 c.last_report m.ring
          (omega (arith, m.clock, a.clock, c.seventeen)) c.last in
      (
        omega (arith, z.clock, m.clock, a.clock, c.seventeen),
        IsRing-same b slots c.w4 w' c.last_writes.same_slots z.ring,
        line-Writes l'.current_ticker_clock c.w4 w' 0 z.ring c.last_writes (omega arith)
            ∙ z.shifted 0 (omega arith)
            ∙ m.moved 1 (omega arith) (omega (arith, c.seventeen))
            ∙ ap (line b slots c.w2 c.l1.current_ticker_clock) (omega (arith, c.seventeen))
            ∙ line-Writes c.l1.current_ticker_clock c.w1 c.w2 18 a.ring c.first_writes (omega arith)
            ∙ a.shifted 18 (omega arith),
      )

  -- What the kernel has written in the slot of a clock, as the tick at that clock finds it, is
  -- what the tick nineteen clocks later reports on, one increment for each of its keys, judged on
  -- its counts: in each slot a map of its own, below the wrap of the clock, while the kernel
  -- writes in the slot of the goroutine's clock alone, under a runtime that ranges over each key
  -- of a map once, and whatever errors the ticks between log before the slot is the next to be
  -- read.
  pub Cycle-Reports :
      (l l' : Locals) (w w' : Kernel b) (env : Env) (r : Report)
      → IsRing b slots w
      → l.current_ticker_clock + 20 < 2 ^ 64
      → Cycle l w l' w'
      → Ranges env
      → (tick b env l' w').2 ≡ ok r
      → (stats : GoMap ConnKey Stats) × (collect_stats
            (b.inner.iterate (w.inner_maps (slots (l.current_ticker_clock % 20)))).0
            []
          ≡ ok stats)
        × (r.incs
            ≡ map
                (λ k. (fresh_verdict l'.previous_failed_second stats k).0)
                (env.order (keys stats)))
  unfolding line
  Cycle-Reports l l' w w' env r ring small c ranges h =
      let (clock, ring', same) = Cycle-line l l' w w' ring small c in
      let p = tick-Pops b slots env l' w' r ring' (omega (arith, clock)) ranges h in
      let here : line b slots w l.current_ticker_clock 19
          ≡ w.inner_maps (slots (l.current_ticker_clock % 20)) =
        ap (λ i. w.inner_maps (slots i)) (omega arith) in
      (
        p.reports.stats,
        ap (λ m. collect_stats (b.inner.iterate m).0 []) (sym (same ∙ here)) ∙ p.reports.collected,
        p.reports.incs,
      )
