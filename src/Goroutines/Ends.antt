-- ===== src/Goroutines/Ends.antt =====
-- How long a shutdown of connectivity-exporter/main.go can take, in steps.
use connectivity_exporter.Prelude.{
  ℕ, ◌+◌, ◌≡◌, refl, arith, Bool, true, false, not, List, [], ◌∷◌, ◌⊎◌, inl, inr, length,
  if◌then◌else◌,
}
use connectivity_exporter.Metrics.Loop.{Event}
use connectivity_exporter.Goroutines.{TrackerAt, TimerAt, ApplyAt, ServerAt, System, Step, Run}
use connectivity_exporter.Goroutines.Stuck.{an_inc, a_snapshot, Stuck}

-- A step that the goroutines take by themselves: no signal, no tick, no empty snapshot from the
-- closed channel.
abbrev pub is_own : {s t : System} {now : List Event} → Step s now t → Bool
is_own (Step.signal s) = false
is_own (Step.tick s incs p) = false
is_own (Step.send_inc s inc incs p q) = true
is_own (Step.tick_over s p) = true
is_own (Step.tracker_done s p q) = true
is_own (Step.timer_tick s x p) = false
is_own (Step.send_snapshot s x p q) = true
is_own (Step.timer_done s p q) = true
is_own (Step.closed_snapshot s p q) = false
is_own (Step.apply_done s p q) = true
is_own (Step.server_done s p q) = true
is_own (Step.main_done s c p q r v) = not s.main_returned

-- The steps that a tick brings: its end, and the sends of its increments or of its snapshot.
abbrev pub brings : {s t : System} {now : List Event} → Step s now t → ℕ
brings (Step.signal s) = 0
brings (Step.tick s incs p) = 1 + length incs
brings (Step.send_inc s inc incs p q) = 0
brings (Step.tick_over s p) = 0
brings (Step.tracker_done s p q) = 0
brings (Step.timer_tick s x p) = 1
brings (Step.send_snapshot s x p q) = 0
brings (Step.timer_done s p q) = 0
brings (Step.closed_snapshot s p q) = 0
brings (Step.apply_done s p q) = 0
brings (Step.server_done s p q) = 0
brings (Step.main_done s c p q r v) = 0

abbrev pub own_steps : {s t : System} {received : List Event} → Run s received t → ℕ
own_steps (Run.stay s) = 0
own_steps (Run.then_step run step) = own_steps run + (if is_own step then 1 else 0)

abbrev pub brought : {s t : System} {received : List Event} → Run s received t → ℕ
brought (Run.stay s) = 0
brought (Run.then_step run step) = brought run + brings step

-- How many steps of their own the goroutines have left.
abbrev tracker_left : TrackerAt → ℕ
tracker_left TrackerAt.selects = 1
tracker_left (TrackerAt.sends incs) = 2 + length incs
tracker_left TrackerAt.returned = 0

abbrev timer_left : TimerAt → ℕ
timer_left TimerAt.selects = 1
timer_left (TimerAt.sends x) = 2
timer_left TimerAt.returned = 0

abbrev apply_left : ApplyAt → ℕ
apply_left ApplyAt.selects = 1
apply_left ApplyAt.returned = 0

abbrev server_left : ServerAt → ℕ
server_left ServerAt.serves = 1
server_left ServerAt.returned = 0

unfoldable pub steps_left : System → ℕ
steps_left s =
    tracker_left s.tracker
    + timer_left s.timer
    + apply_left s.applier
    + server_left s.server
    + (if s.main_returned then 0 else 1)

-- Each of these steps takes one off, and a tick puts some on.
steps_left-Step :
    {s t : System} {now : List Event} (step : Step s now t)
    → (if is_own step then 1 else 0) + steps_left t ≡ steps_left s + brings step
unfolding steps_left
steps_left-Step (Step.signal s) = omega arith
steps_left-Step (Step.tick s incs p) = ground arith
steps_left-Step (Step.send_inc s inc incs p q) = ground arith
steps_left-Step (Step.tick_over s p) = ground arith
steps_left-Step (Step.tracker_done s p q) = ground arith
steps_left-Step (Step.timer_tick s x p) = ground arith
steps_left-Step (Step.send_snapshot s x p q) = ground arith
steps_left-Step (Step.timer_done s p q) = ground arith
steps_left-Step (Step.closed_snapshot s p q) = omega arith
steps_left-Step (Step.apply_done s p q) = ground arith
steps_left-Step (Step.server_done s p q) = ground arith
steps_left-Step (Step.main_done s c p q r v) = ground arith

steps_left-Run :
    {s t : System} {received : List Event} (run : Run s received t)
    → own_steps run + steps_left t ≡ steps_left s + brought run
steps_left-Run (Run.stay s) = omega arith
steps_left-Run (Run.then_step run step) = omega (arith, steps_left-Run run, steps_left-Step step)

still_cancelled :
    {s t : System} {now : List Event} → Step s now t → s.cancelled ≡ true → t.cancelled ≡ true
still_cancelled (Step.signal s) c = refl
still_cancelled (Step.tick s incs p) c = c
still_cancelled (Step.send_inc s inc incs p q) c = c
still_cancelled (Step.tick_over s p) c = c
still_cancelled (Step.tracker_done s p q) c = c
still_cancelled (Step.timer_tick s x p) c = c
still_cancelled (Step.send_snapshot s x p q) c = c
still_cancelled (Step.timer_done s p q) c = c
still_cancelled (Step.closed_snapshot s p q) c = c
still_cancelled (Step.apply_done s p q) c = c
still_cancelled (Step.server_done s p q) c = c
still_cancelled (Step.main_done s d p q r v) c = c

run_cancelled :
    {s t : System} {received : List Event}
    → Run s received t
    → s.cancelled ≡ true
    → t.cancelled ≡ true
run_cancelled (Run.stay s) c = c
run_cancelled (Run.then_step run step) c = still_cancelled step (run_cancelled run c)

-- One more such step can be taken.
pub record Goes (s : System) : Type 0 where
  pub now : List Event
  pub next : System
  pub step : Step s now next
  pub own : is_own step ≡ true

-- What a system is at: another step, the end of `main`, or a send that nobody receives.
abbrev pub IsAt : System → Type 0
IsAt s = Goes s ⊎ (s.main_returned ≡ true) ⊎ Stuck s

one_step : {s t : System} {now : List Event} (step : Step s now t) → is_own step ≡ true → IsAt s
one_step step own = inl (record { now = _; next = _; step = step; own = own })

module _ (s : System) (c : s.cancelled ≡ true) where
  IsAt-main :
      (m : Bool)
      → s.main_returned ≡ m
      → s.tracker ≡ TrackerAt.returned
      → s.timer ≡ TimerAt.returned
      → s.applier ≡ ApplyAt.returned
      → s.server ≡ ServerAt.returned
      → IsAt s
  IsAt-main true m p q r v = inr (inl m)
  IsAt-main false m p q r v = one_step (Step.main_done s c p q r v) (rw m refl)

  IsAt-server :
      (v : ServerAt)
      → s.server ≡ v
      → s.tracker ≡ TrackerAt.returned
      → s.timer ≡ TimerAt.returned
      → s.applier ≡ ApplyAt.returned
      → IsAt s
  IsAt-server ServerAt.serves v p q r = one_step (Step.server_done s v c) refl
  IsAt-server ServerAt.returned v p q r = IsAt-main s.main_returned refl p q r v

  IsAt-apply :
      (a : ApplyAt)
      → s.applier ≡ a
      → s.tracker ≡ TrackerAt.returned
      → s.timer ≡ TimerAt.returned
      → IsAt s
  IsAt-apply ApplyAt.selects r p q = one_step (Step.apply_done s r c) refl
  IsAt-apply ApplyAt.returned r p q = IsAt-server s.server refl p q r

  IsAt-timer :
      (t : TimerAt) (a : ApplyAt)
      → s.timer ≡ t
      → s.applier ≡ a
      → s.tracker ≡ TrackerAt.returned
      → IsAt s
  IsAt-timer TimerAt.selects a q r p = one_step (Step.timer_done s q c) refl
  IsAt-timer (TimerAt.sends x) ApplyAt.selects q r p = one_step (Step.send_snapshot s x q r) refl
  IsAt-timer (TimerAt.sends x) ApplyAt.returned q r p =
      inr (inr (record { nobody = r; sending = a_snapshot x q }))
  IsAt-timer TimerAt.returned a q r p = IsAt-apply a r p q

  IsAt-tracker : (k : TrackerAt) (a : ApplyAt) → s.tracker ≡ k → s.applier ≡ a → IsAt s
  IsAt-tracker TrackerAt.selects a p r = one_step (Step.tracker_done s p c) refl
  IsAt-tracker (TrackerAt.sends []) a p r = one_step (Step.tick_over s p) refl
  IsAt-tracker (TrackerAt.sends (inc ∷ incs)) ApplyAt.selects p r =
      one_step (Step.send_inc s inc incs p r) refl
  IsAt-tracker (TrackerAt.sends (inc ∷ incs)) ApplyAt.returned p r =
      inr (inr (record { nobody = r; sending = an_inc inc incs p }))
  IsAt-tracker TrackerAt.returned a p r = IsAt-timer s.timer a refl r p

-- In every run from a cancelled context, the steps that the goroutines and `main` take by themselves
-- (all but the signal, the ticks and the empty snapshots of the closed channel) and those that they
-- have left add up to those left at its start and what its ticks bring, one for each tick, increment
-- and snapshot: with no further tick there are at most `steps_left s`. At its end one more such step
-- can be taken, or `main` has returned, or `Apply` has returned while another goroutine sends.
pub cancelled-IsAt :
    (s t : System) (received : List Event) (run : Run s received t)
    → s.cancelled ≡ true
    → (own_steps run + steps_left t ≡ steps_left s + brought run) × IsAt t
cancelled-IsAt s t received run c =
    (steps_left-Run run, IsAt-tracker t (run_cancelled run c) t.tracker t.applier refl refl)
