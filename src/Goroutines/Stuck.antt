-- ===== src/Goroutines/Stuck.antt =====
-- Sends that nobody receives, in the shutdown of connectivity-exporter/main.go.
use connectivity_exporter.Prelude.{true, false, List, ◌∷◌, ◌≡◌}
use connectivity_exporter.Metrics.Inc.{Inc}
use connectivity_exporter.Metrics.Loop.{Event}
use connectivity_exporter.Promextra.{Snapshot}
use connectivity_exporter.Goroutines.{TrackerAt, TimerAt, ApplyAt, System, Step, Run}

-- A run in which `main` returns.
pub record Finishes (s : System) : Type 0 where
  pub received : List Event
  pub end : System
  pub run : Run s received end
  pub returns : end.main_returned ≡ true

-- A send that nobody is left to receive.
pub data Sending (s : System) : Type 0 where
  an_inc : (inc : Inc) (incs : List Inc) → s.tracker ≡ TrackerAt.sends (inc ∷ incs) → Sending s
  a_snapshot : (snapshot : Snapshot) → s.timer ≡ TimerAt.sends snapshot → Sending s

pub record Stuck (s : System) : Type 0 where
  pub nobody : s.applier ≡ ApplyAt.returned
  pub sending : Sending s

-- A stuck system, while `main` waits.
record Blocked (s : System) : Type 0 where
  nobody : s.applier ≡ ApplyAt.returned
  sending : Sending s
  waits : s.main_returned ≡ false

stopped_by_inc :
    {s : System} (inc : Inc) (incs : List Inc)
    → s.applier ≡ ApplyAt.returned
    → s.tracker ≡ TrackerAt.sends (inc ∷ incs)
    → s.main_returned ≡ false
    → Blocked s
stopped_by_inc inc incs p q m = record { nobody = p; sending = an_inc inc incs q; waits = m }

stopped_by_snapshot :
    {s : System} (x : Snapshot)
    → s.applier ≡ ApplyAt.returned
    → s.timer ≡ TimerAt.sends x
    → s.main_returned ≡ false
    → Blocked s
stopped_by_snapshot x p q m = record { nobody = p; sending = a_snapshot x q; waits = m }

-- No step helps.
Step-an_inc :
    {s t : System} {now : List Event} (inc : Inc) (incs : List Inc)
    → Step s now t
    → s.applier ≡ ApplyAt.returned
    → s.tracker ≡ TrackerAt.sends (inc ∷ incs)
    → s.main_returned ≡ false
    → Blocked t
Step-an_inc inc incs (Step.signal s) p q m = stopped_by_inc inc incs p q m
Step-an_inc inc incs (Step.tick s js a) p q m = absurd (cc (q, a))
Step-an_inc inc incs (Step.send_inc s i js a c) p q m = absurd (cc (p, c))
Step-an_inc inc incs (Step.tick_over s a) p q m = absurd (cc (q, a))
Step-an_inc inc incs (Step.tracker_done s a c) p q m = absurd (cc (q, a))
Step-an_inc inc incs (Step.timer_tick s x a) p q m = stopped_by_inc inc incs p q m
Step-an_inc inc incs (Step.send_snapshot s x a c) p q m = absurd (cc (p, c))
Step-an_inc inc incs (Step.timer_done s a c) p q m = stopped_by_inc inc incs p q m
Step-an_inc inc incs (Step.closed_snapshot s a c) p q m = absurd (cc (p, c))
Step-an_inc inc incs (Step.apply_done s a c) p q m = absurd (cc (p, a))
Step-an_inc inc incs (Step.server_done s a c) p q m = stopped_by_inc inc incs p q m
Step-an_inc inc incs (Step.main_done s c a e f v) p q m = absurd (cc (q, a))

Step-a_snapshot :
    {s t : System} {now : List Event} (x : Snapshot)
    → Step s now t
    → s.applier ≡ ApplyAt.returned
    → s.timer ≡ TimerAt.sends x
    → s.main_returned ≡ false
    → Blocked t
Step-a_snapshot x (Step.signal s) p q m = stopped_by_snapshot x p q m
Step-a_snapshot x (Step.tick s js a) p q m = stopped_by_snapshot x p q m
Step-a_snapshot x (Step.send_inc s i js a c) p q m = absurd (cc (p, c))
Step-a_snapshot x (Step.tick_over s a) p q m = stopped_by_snapshot x p q m
Step-a_snapshot x (Step.tracker_done s a c) p q m = stopped_by_snapshot x p q m
Step-a_snapshot x (Step.timer_tick s y a) p q m = absurd (cc (q, a))
Step-a_snapshot x (Step.send_snapshot s y a c) p q m = absurd (cc (p, c))
Step-a_snapshot x (Step.timer_done s a c) p q m = absurd (cc (q, a))
Step-a_snapshot x (Step.closed_snapshot s a c) p q m = absurd (cc (p, c))
Step-a_snapshot x (Step.apply_done s a c) p q m = absurd (cc (p, a))
Step-a_snapshot x (Step.server_done s a c) p q m = stopped_by_snapshot x p q m
Step-a_snapshot x (Step.main_done s c a e f v) p q m = absurd (cc (q, e))

Step-Blocked : {s t : System} {now : List Event} → Step s now t → Blocked s → Blocked t
Step-Blocked {s} {t} step h = by_sending h.sending
  where
    by_sending : Sending s → Blocked t
    by_sending (an_inc inc incs q) = Step-an_inc inc incs step h.nobody q h.waits
    by_sending (a_snapshot x q) = Step-a_snapshot x step h.nobody q h.waits

Run-Blocked : {s t : System} {received : List Event} → Run s received t → Blocked s → Blocked t
Run-Blocked (Run.stay s) h = h
Run-Blocked (Run.then_step run step) h = Step-Blocked step (Run-Blocked run h)

pub Stuck-never_Finishes : (s : System) → s.main_returned ≡ false → Stuck s → ¬ Finishes s
Stuck-never_Finishes s m h f =
    let end = Run-Blocked f.run (record { nobody = h.nobody; sending = h.sending; waits = m }) in
    cc (end.waits, f.returns)
