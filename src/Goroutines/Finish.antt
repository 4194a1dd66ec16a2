-- ===== src/Goroutines/Finish.antt =====
-- Whether a shutdown of connectivity-exporter/main.go can end.
use connectivity_exporter.Prelude.{false, true, List, [], ◌∷◌, ◌++◌, ◌≡◌, ◌≢◌, refl, ◌⊎◌, inl, inr}
use connectivity_exporter.Metrics.Inc.{Inc}
use connectivity_exporter.Metrics.Loop.{Event}
use connectivity_exporter.Goroutines.{TrackerAt, TimerAt, ApplyAt, ServerAt, System, Step, Run}
use connectivity_exporter.Goroutines.Stuck.{
  Finishes, Sending, an_inc, a_snapshot, Stuck, Stuck-never_Finishes,
}

step_first :
    {s t u : System} {now later : List Event}
    → Step s now t
    → Run t later u
    → (received : List Event) × Run s received u
step_first step (Run.stay t) = (_, Run.then_step (Run.stay _) step)
step_first step (Run.then_step {before} {now} run last) =
    let (received, whole) = step_first step run in (received ++ now, Run.then_step whole last)

Finishes-after : {s t : System} {now : List Event} → Step s now t → Finishes t → Finishes s
Finishes-after step f =
    let (received, whole) = step_first step f.run in
    record { received = received; end = f.end; run = whole; returns = f.returns }

-- Who is back.
record Back (s : System) : Type 0 where
  cancelled : s.cancelled ≡ true
  tracker : s.tracker ≡ TrackerAt.returned
  timer : s.timer ≡ TimerAt.returned

all_back :
    (s : System) → Back s → s.applier ≡ ApplyAt.returned → s.server ≡ ServerAt.returned → Finishes s
all_back s b p q = Finishes-after (Step.main_done s b.cancelled b.tracker b.timer p q) (record {
  received = [];
  end = record s { main_returned = true };
  run = Run.stay _;
  returns = refl;
})

server_back :
    (s : System) (v : ServerAt) → s.server ≡ v → Back s → s.applier ≡ ApplyAt.returned → Finishes s
server_back s ServerAt.serves q b p =
    Finishes-after (Step.server_done s q b.cancelled)
      (all_back _ (record { cancelled = b.cancelled; tracker = b.tracker; timer = b.timer }) p refl)
server_back s ServerAt.returned q b p = all_back s b p q

apply_back : (s : System) (a : ApplyAt) → s.applier ≡ a → Back s → Finishes s
apply_back s ApplyAt.selects p b = Finishes-after (Step.apply_done s p b.cancelled) (
    server_back _ s.server refl
      (record { cancelled = b.cancelled; tracker = b.tracker; timer = b.timer }) refl)
apply_back s ApplyAt.returned p b = server_back s s.server refl b p

timer_back :
    (s : System) (t : TimerAt) (a : ApplyAt)
    → s.timer ≡ t
    → s.applier ≡ a
    → s.cancelled ≡ true
    → s.tracker ≡ TrackerAt.returned
    → Finishes s ⊎ Stuck s
timer_back s TimerAt.selects a q p c b = inl (
    Finishes-after (Step.timer_done s q c)
      (apply_back _ s.applier refl (record { cancelled = c; tracker = b; timer = refl })))
timer_back s TimerAt.returned a q p c b =
    inl (apply_back s s.applier refl (record { cancelled = c; tracker = b; timer = q }))
timer_back s (TimerAt.sends x) ApplyAt.returned q p c b =
    inr (record { nobody = p; sending = a_snapshot x q })
timer_back s (TimerAt.sends x) ApplyAt.selects q p c b = inl (
    Finishes-after (Step.send_snapshot s x q p) (
      Finishes-after (Step.timer_done _ refl c)
        (apply_back _ s.applier refl (record { cancelled = c; tracker = b; timer = refl }))))

-- A tracker that sends nothing is not what is stuck.
Stuck-tracker :
    {s : System} (k : TrackerAt)
    → ((inc : Inc) (incs : List Inc) → k ≢ TrackerAt.sends (inc ∷ incs))
    → Stuck (record s { tracker = k })
    → Stuck s
Stuck-tracker {s} k silent h = record { nobody = h.nobody; sending = of_timer h.sending }
  where
    of_timer : Sending (record s { tracker = k }) → Sending s
    of_timer (an_inc inc incs q) = absurd (silent inc incs q)
    of_timer (a_snapshot x q) = a_snapshot x q

selects_back :
    (s : System) → s.tracker ≡ TrackerAt.selects → s.cancelled ≡ true → Finishes s ⊎ Stuck s
selects_back s q c =
    elim (timer_back (record s { tracker = TrackerAt.returned }) s.timer s.applier refl refl c
      refl) [
        | inl f ↦ inl (Finishes-after (Step.tracker_done s q c) f)
        | inr h ↦ inr (Stuck-tracker TrackerAt.returned (λ inc incs e. cc e) h)
      ]

sends_back :
    (s : System) (incs : List Inc) (a : ApplyAt)
    → s.tracker ≡ TrackerAt.sends incs
    → s.applier ≡ a
    → s.cancelled ≡ true
    → Finishes s ⊎ Stuck s
sends_back s [] a q p c = elim (selects_back (record s { tracker = TrackerAt.selects }) refl c) [
  | inl f ↦ inl (Finishes-after (Step.tick_over s q) f)
  | inr h ↦ inr (Stuck-tracker TrackerAt.selects (λ inc incs e. cc e) h)
]
sends_back s (inc ∷ incs) ApplyAt.returned q p c =
    inr (record { nobody = p; sending = an_inc inc incs q })
sends_back s (inc ∷ incs) ApplyAt.selects q p c =
    elim (sends_back (record s { tracker = TrackerAt.sends incs }) incs ApplyAt.selects refl p c) [
      | inl f ↦ inl (Finishes-after (Step.send_inc s inc incs q p) f)
      | inr h ↦ absurd (cc (p, h.nobody))
    ]

by_tracker :
    (s : System) (k : TrackerAt) → s.tracker ≡ k → s.cancelled ≡ true → Finishes s ⊎ Stuck s
by_tracker s TrackerAt.selects q c = selects_back s q c
by_tracker s (TrackerAt.sends incs) q c = sends_back s incs s.applier q refl c
by_tracker s TrackerAt.returned q c = timer_back s s.timer s.applier refl refl c q

-- Once the context is cancelled, and before `main` has returned, some run returns from `main`,
-- or `Apply` has returned while `TrackConnections` sends an increment or `TrackExecutionTime` a
-- snapshot, and then no run does.
pub cancelled-Finishes :
    (s : System)
    → s.cancelled ≡ true
    → s.main_returned ≡ false
    → Finishes s ⊎ (Stuck s × (¬ Finishes s))
cancelled-Finishes s c m = elim (by_tracker s s.tracker refl c) [
  | inl f ↦ inl f
  | inr h ↦ inr (h, Stuck-never_Finishes s m h)
]
