-- ===== src/Goroutines/WaitGroup.antt =====
-- The wait group of connectivity-exporter/main.go: `wg.Add(4)`, the deferred `wg.Done()` of each of the
-- four goroutines, and `wg.Wait()`.
pub mod Counts
use connectivity_exporter.Prelude.{ℕ, ◌-◌, Bool, true, false, List, [], ◌≡◌, ◌++◌}
use connectivity_exporter.Metrics.Loop.{Event}
use connectivity_exporter.Goroutines.{System, start, Step}

pub record Waiting : Type 0 where
  pub system : System
  -- the counter of `wg`
  pub count : ℕ

abbrev pub start_waiting : Waiting
start_waiting = record { system = start; count = 4 }

-- How many goroutines return in a step, each of which leaves a `wg.Done()`.
abbrev pub dones : {s t : System} {now : List Event} → Step s now t → ℕ
dones (Step.signal s) = 0
dones (Step.tick s incs p) = 0
dones (Step.send_inc s inc incs p q) = 0
dones (Step.tick_over s p) = 0
dones (Step.tracker_done s p q) = 1
dones (Step.timer_tick s x p) = 0
dones (Step.send_snapshot s x p q) = 0
dones (Step.timer_done s p q) = 1
dones (Step.closed_snapshot s p q) = 0
dones (Step.apply_done s p q) = 1
dones (Step.server_done s p q) = 1
dones (Step.main_done s c p q r v) = 0

-- It is `main` that returns.
abbrev pub is_main : {s t : System} {now : List Event} → Step s now t → Bool
is_main (Step.signal s) = false
is_main (Step.tick s incs p) = false
is_main (Step.send_inc s inc incs p q) = false
is_main (Step.tick_over s p) = false
is_main (Step.tracker_done s p q) = false
is_main (Step.timer_tick s x p) = false
is_main (Step.send_snapshot s x p q) = false
is_main (Step.timer_done s p q) = false
is_main (Step.closed_snapshot s p q) = false
is_main (Step.apply_done s p q) = false
is_main (Step.server_done s p q) = false
is_main (Step.main_done s c p q r v) = true

-- A step with the counter: `main` returns when it finds the counter at zero.
pub data WaitStep : Waiting → List Event → Waiting → Type 0 where
  goes :
      {s t : System} {now : List Event}
      → (n : ℕ) (step : Step s now t) → is_main step ≡ false
      → WaitStep
          (record { system = s; count = n })
          now
          (record { system = t; count = n - dones step })
  waited :
      (s : System) (n : ℕ)
      → s.cancelled ≡ true
      → n ≡ 0
      → WaitStep
          (record { system = s; count = n })
          []
          (record { system = record s { main_returned = true }; count = n })

pub data WaitRun : Waiting → List Event → Waiting → Type 0 where
  stay : (x : Waiting) → WaitRun x [] x
  then_step :
      {x y z : Waiting} {before now : List Event}
      → WaitRun x before y
      → WaitStep y now z
      → WaitRun x (before ++ now) z
