-- ===== src/Goroutines/WaitGroup/Counts.antt =====
-- What the counter of the wait group counts.
use connectivity_exporter.Prelude.{
  ℕ, ◌+◌, ◌-◌, ◌≡◌, ◌↔◌, refl, sym, subst, ap, arith, true, false, List, [],
}
use connectivity_exporter.Metrics.Loop.{Event}
use connectivity_exporter.Goroutines.{
  TrackerAt, TimerAt, ApplyAt, ServerAt, System, start, Step, Run,
}
use connectivity_exporter.Goroutines.WaitGroup.{
  Waiting, start_waiting, dones, is_main, WaitStep, WaitRun,
}

abbrev pub of_tracker : TrackerAt → ℕ
of_tracker TrackerAt.selects = 1
of_tracker (TrackerAt.sends incs) = 1
of_tracker TrackerAt.returned = 0

abbrev pub of_timer : TimerAt → ℕ
of_timer TimerAt.selects = 1
of_timer (TimerAt.sends x) = 1
of_timer TimerAt.returned = 0

abbrev pub of_applier : ApplyAt → ℕ
of_applier ApplyAt.selects = 1
of_applier ApplyAt.returned = 0

abbrev pub of_server : ServerAt → ℕ
of_server ServerAt.serves = 1
of_server ServerAt.returned = 0

-- How many of the four goroutines have not returned.
abbrev pub outstanding : System → ℕ
outstanding s = of_tracker s.tracker + of_timer s.timer + of_applier s.applier + of_server s.server

Step-outstanding :
    {s t : System} {now : List Event} (step : Step s now t)
    → outstanding s ≡ outstanding t + dones step
Step-outstanding (Step.signal s) = omega arith
Step-outstanding (Step.tick s incs p) = omega (arith, ap of_tracker p)
Step-outstanding (Step.send_inc s inc incs p q) = omega (arith, ap of_tracker p)
Step-outstanding (Step.tick_over s p) = omega (arith, ap of_tracker p)
Step-outstanding (Step.tracker_done s p q) = omega (arith, ap of_tracker p)
Step-outstanding (Step.timer_tick s x p) = omega (arith, ap of_timer p)
Step-outstanding (Step.send_snapshot s x p q) = omega (arith, ap of_timer p)
Step-outstanding (Step.timer_done s p q) = omega (arith, ap of_timer p)
Step-outstanding (Step.closed_snapshot s p q) = omega arith
Step-outstanding (Step.apply_done s p q) = omega (arith, ap of_applier p)
Step-outstanding (Step.server_done s p q) = omega (arith, ap of_server p)
Step-outstanding (Step.main_done s c p q r v) = omega arith

tracker_back : (k : TrackerAt) → of_tracker k ≡ 0 → k ≡ TrackerAt.returned
tracker_back TrackerAt.selects e = absurd (omega arith)
tracker_back (TrackerAt.sends incs) e = absurd (omega arith)
tracker_back TrackerAt.returned e = refl

timer_back : (k : TimerAt) → of_timer k ≡ 0 → k ≡ TimerAt.returned
timer_back TimerAt.selects e = absurd (omega arith)
timer_back (TimerAt.sends x) e = absurd (omega arith)
timer_back TimerAt.returned e = refl

applier_back : (k : ApplyAt) → of_applier k ≡ 0 → k ≡ ApplyAt.returned
applier_back ApplyAt.selects e = absurd (omega arith)
applier_back ApplyAt.returned e = refl

server_back : (k : ServerAt) → of_server k ≡ 0 → k ≡ ServerAt.returned
server_back ServerAt.serves e = absurd (omega arith)
server_back ServerAt.returned e = refl

-- With nobody outstanding `main` may return.
waited_step :
    (s : System)
    → s.cancelled ≡ true
    → outstanding s ≡ 0
    → Step s [] (record s { main_returned = true })
waited_step s c none_out =
    Step.main_done s c (tracker_back s.tracker (omega arith)) (timer_back s.timer (omega arith))
      (applier_back s.applier (omega arith)) (server_back s.server (omega arith))

WaitStep-Step :
    {x : Waiting} {now : List Event} {y : Waiting}
    → WaitStep x now y
    → x.count ≡ outstanding x.system
    → Step x.system now y.system × (y.count ≡ outstanding y.system)
WaitStep-Step (WaitStep.goes n step m) h = (step, omega (arith, h, Step-outstanding step))
WaitStep-Step (WaitStep.waited s n c e) h = (waited_step s c (omega (arith, h, e)), h)

from_waiting :
    {x : Waiting} {received : List Event} {y : Waiting}
    → WaitRun x received y
    → x.count ≡ outstanding x.system
    → Run x.system received y.system × (y.count ≡ outstanding y.system)
from_waiting (WaitRun.stay x) h = (Run.stay x.system, h)
from_waiting (WaitRun.then_step run step) h =
    let (whole, count) = from_waiting run h in
    let (last, after) = WaitStep-Step step count in (Run.then_step whole last, after)

counted_goes :
    {s t : System} {now : List Event} (step : Step s now t)
    → is_main step ≡ false
    → WaitStep
        (record { system = s; count = outstanding s })
        now
        (record { system = t; count = outstanding t })
counted_goes {s} {t} {now} step e =
    let counted : outstanding s - dones step ≡ outstanding t =
      omega (arith, Step-outstanding step) in
    subst
      (λ n.
        WaitStep (record { system = s; count = outstanding s }) now
          (record { system = t; count = n }))
      counted (WaitStep.goes (outstanding s) step e)

-- A step of the goroutines or of `main`, with the counter.
Step-WaitStep :
    {s t : System} {now : List Event}
    → Step s now t
    → WaitStep
        (record { system = s; count = outstanding s })
        now
        (record { system = t; count = outstanding t })
Step-WaitStep (Step.signal s) = counted_goes (Step.signal s) refl
Step-WaitStep (Step.tick s incs p) = counted_goes (Step.tick s incs p) refl
Step-WaitStep (Step.send_inc s inc incs p q) = counted_goes (Step.send_inc s inc incs p q) refl
Step-WaitStep (Step.tick_over s p) = counted_goes (Step.tick_over s p) refl
Step-WaitStep (Step.tracker_done s p q) = counted_goes (Step.tracker_done s p q) refl
Step-WaitStep (Step.timer_tick s x p) = counted_goes (Step.timer_tick s x p) refl
Step-WaitStep (Step.send_snapshot s x p q) = counted_goes (Step.send_snapshot s x p q) refl
Step-WaitStep (Step.timer_done s p q) = counted_goes (Step.timer_done s p q) refl
Step-WaitStep (Step.closed_snapshot s p q) = counted_goes (Step.closed_snapshot s p q) refl
Step-WaitStep (Step.apply_done s p q) = counted_goes (Step.apply_done s p q) refl
Step-WaitStep (Step.server_done s p q) = counted_goes (Step.server_done s p q) refl
Step-WaitStep (Step.main_done s c p q r v) =
    WaitStep.waited s (outstanding s) c
      (omega (arith, ap of_tracker p, ap of_timer q, ap of_applier r, ap of_server v))

Run-WaitRun :
    {s t : System} {received : List Event}
    → Run s received t
    → WaitRun
        (record { system = s; count = outstanding s })
        received
        (record { system = t; count = outstanding t })
Run-WaitRun (Run.stay s) = WaitRun.stay _
Run-WaitRun (Run.then_step run step) = WaitRun.then_step (Run-WaitRun run) (Step-WaitStep step)

-- With wg.Add(4), the deferred wg.Done() of each of the four goroutines and wg.Wait(), a run from
-- the start is one in which main returns only after the four have, and each such run is one with
-- the counter: at each point the counter is then the number of goroutines that have not returned.
pub WaitRun-iff :
    (received : List Event) (s : System) (n : ℕ)
    → WaitRun start_waiting received (record { system = s; count = n })
      ↔ (Run start received s × (n ≡ outstanding s))
WaitRun-iff received s n = (
  λ run. from_waiting run refl,
  λ (run, counted).
      subst (λ k. WaitRun start_waiting received (record { system = s; count = k })) (sym counted)
        (Run-WaitRun run),
)
