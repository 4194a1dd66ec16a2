-- ===== src/Goroutines/Made.antt =====
-- What the loops of connectivity-exporter/main.go make, send and still have to send.
use connectivity_exporter.Prelude.{ℕ, ◌+◌, List, [], ◌∷◌, ◌++◌, replicate}
use connectivity_exporter.Metrics.Inc.{Inc}
use connectivity_exporter.Metrics.Loop.{Event, inc_received, snapshot_received, zero_snapshot}
use connectivity_exporter.Promextra.{Snapshot}
use connectivity_exporter.Goroutines.{TrackerAt, TimerAt, System, Step, Run}

abbrev pub snapshots_in : List Event → List Snapshot
snapshots_in [] = []
snapshots_in (inc_received inc ∷ events) = snapshots_in events
snapshots_in (snapshot_received s ∷ events) = s ∷ snapshots_in events

-- What a loop has still to send.
abbrev pub incs_left : TrackerAt → List Inc
incs_left TrackerAt.selects = []
incs_left (TrackerAt.sends incs) = incs
incs_left TrackerAt.returned = []

abbrev pub snapshots_left : TimerAt → List Snapshot
snapshots_left TimerAt.selects = []
snapshots_left (TimerAt.sends s) = s ∷ []
snapshots_left TimerAt.returned = []

-- What the ticks make.
abbrev pub incs_of_step : {s t : System} {now : List Event} → Step s now t → List Inc
incs_of_step (Step.signal s) = []
incs_of_step (Step.tick s incs p) = incs
incs_of_step (Step.send_inc s inc incs p q) = []
incs_of_step (Step.tick_over s p) = []
incs_of_step (Step.tracker_done s p q) = []
incs_of_step (Step.timer_tick s x p) = []
incs_of_step (Step.send_snapshot s x p q) = []
incs_of_step (Step.timer_done s p q) = []
incs_of_step (Step.closed_snapshot s p q) = []
incs_of_step (Step.apply_done s p q) = []
incs_of_step (Step.server_done s p q) = []
incs_of_step (Step.main_done s c p q r v) = []

abbrev pub snapshots_of_step : {s t : System} {now : List Event} → Step s now t → List Snapshot
snapshots_of_step (Step.signal s) = []
snapshots_of_step (Step.tick s incs p) = []
snapshots_of_step (Step.send_inc s inc incs p q) = []
snapshots_of_step (Step.tick_over s p) = []
snapshots_of_step (Step.tracker_done s p q) = []
snapshots_of_step (Step.timer_tick s x p) = x ∷ []
snapshots_of_step (Step.send_snapshot s x p q) = []
snapshots_of_step (Step.timer_done s p q) = []
snapshots_of_step (Step.closed_snapshot s p q) = []
snapshots_of_step (Step.apply_done s p q) = []
snapshots_of_step (Step.server_done s p q) = []
snapshots_of_step (Step.main_done s c p q r v) = []

abbrev pub incs_made : {s t : System} {received : List Event} → Run s received t → List Inc
incs_made (Run.stay s) = []
incs_made (Run.then_step run step) = incs_made run ++ incs_of_step step

abbrev pub snapshots_made :
    {s t : System} {received : List Event} → Run s received t → List Snapshot
snapshots_made (Run.stay s) = []
snapshots_made (Run.then_step run step) = snapshots_made run ++ snapshots_of_step step

-- The zero snapshots of the closed channel.
abbrev pub zeros_of_step : {s t : System} {now : List Event} → Step s now t → ℕ
zeros_of_step (Step.signal s) = 0
zeros_of_step (Step.tick s incs p) = 0
zeros_of_step (Step.send_inc s inc incs p q) = 0
zeros_of_step (Step.tick_over s p) = 0
zeros_of_step (Step.tracker_done s p q) = 0
zeros_of_step (Step.timer_tick s x p) = 0
zeros_of_step (Step.send_snapshot s x p q) = 0
zeros_of_step (Step.timer_done s p q) = 0
zeros_of_step (Step.closed_snapshot s p q) = 1
zeros_of_step (Step.apply_done s p q) = 0
zeros_of_step (Step.server_done s p q) = 0
zeros_of_step (Step.main_done s c p q r v) = 0

abbrev pub zeros : {s t : System} {received : List Event} → Run s received t → ℕ
zeros (Run.stay s) = 0
zeros (Run.then_step run step) = zeros run + zeros_of_step step

abbrev pub zeros_list : ℕ → List Snapshot
zeros_list n = replicate n zero_snapshot
