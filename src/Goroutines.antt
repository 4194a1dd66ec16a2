-- ===== src/Goroutines.antt =====
-- connectivity-exporter/main.go and the loops that it starts, as steps on channels: the
-- goroutines of `TrackConnections`, `TrackExecutionTime`, `Apply` and `ListenAndServe`, and the
-- shutdown. A fatal log ends the process, and a run with it.
pub mod Shutdown
pub mod Stuck
pub mod Finish
pub mod Ends
pub mod Made
pub mod InOrder
pub mod WaitGroup
use connectivity_exporter.Prelude.{Bool, true, false, List, [], ◌∷◌, ◌≡◌, ◌++◌}
use connectivity_exporter.Metrics.Inc.{Inc}
use connectivity_exporter.Metrics.Loop.{Event, inc_received, snapshot_received, zero_snapshot}
use connectivity_exporter.Promextra.{Snapshot}

-- Where `TrackConnections` is: at its `select`, sending the increments of a tick, or back.
pub data TrackerAt : Type 0 where
  selects : TrackerAt
  sends : List Inc → TrackerAt
  returned : TrackerAt

-- Where `TrackExecutionTime` is.
pub data TimerAt : Type 0 where
  selects returned : TimerAt
  sends : Snapshot → TimerAt

-- Where `Apply` is.
pub data ApplyAt : Type 0 where
  selects returned : ApplyAt

-- Where `ListenAndServe` is: the server serves until another goroutine, which waits for the
-- context, has shut it down.
pub data ServerAt : Type 0 where
  serves returned : ServerAt

pub record System : Type 0 where
  pub tracker : TrackerAt
  pub timer : TimerAt
  pub applier : ApplyAt
  pub server : ServerAt
  -- the context is cancelled: `main` waits for the goroutines
  pub cancelled : Bool
  -- `wg.Wait()` is over
  pub main_returned : Bool

abbrev pub start : System
start = record {
  tracker = TrackerAt.selects;
  timer = TimerAt.selects;
  applier = ApplyAt.selects;
  server = ServerAt.serves;
  cancelled = false;
  main_returned = false;
}

-- A step, with what `Apply` receives in it. The channels are unbuffered: a send and a receive are
-- one step.
pub data Step : System → List Event → System → Type 0 where
  signal : (s : System) → Step s [] (record s { cancelled = true })
  tick :
      (s : System) (incs : List Inc)
      → s.tracker ≡ TrackerAt.selects
      → Step s [] (record s { tracker = TrackerAt.sends incs })
  send_inc :
      (s : System) (inc : Inc) (incs : List Inc)
      → s.tracker ≡ TrackerAt.sends (inc ∷ incs)
      → s.applier ≡ ApplyAt.selects
      → Step s (inc_received inc ∷ []) (record s { tracker = TrackerAt.sends incs })
  tick_over :
      (s : System)
      → s.tracker ≡ TrackerAt.sends []
      → Step s [] (record s { tracker = TrackerAt.selects })
  tracker_done :
      (s : System)
      → s.tracker ≡ TrackerAt.selects
      → s.cancelled ≡ true
      → Step s [] (record s { tracker = TrackerAt.returned })
  timer_tick :
      (s : System) (snapshot : Snapshot)
      → s.timer ≡ TimerAt.selects
      → Step s [] (record s { timer = TimerAt.sends snapshot })
  send_snapshot :
      (s : System) (snapshot : Snapshot)
      → s.timer ≡ TimerAt.sends snapshot
      → s.applier ≡ ApplyAt.selects
      → Step s (snapshot_received snapshot ∷ []) (record s { timer = TimerAt.selects })
  timer_done :
      (s : System)
      → s.timer ≡ TimerAt.selects
      → s.cancelled ≡ true
      → Step s [] (record s { timer = TimerAt.returned })
  closed_snapshot :
      (s : System)
      → s.timer ≡ TimerAt.returned
      → s.applier ≡ ApplyAt.selects
      → Step s (snapshot_received zero_snapshot ∷ []) s
  apply_done :
      (s : System)
      → s.applier ≡ ApplyAt.selects
      → s.cancelled ≡ true
      → Step s [] (record s { applier = ApplyAt.returned })
  server_done :
      (s : System)
      → s.server ≡ ServerAt.serves
      → s.cancelled ≡ true
      → Step s [] (record s { server = ServerAt.returned })
  main_done :
      (s : System)
      → s.cancelled ≡ true
      → s.tracker ≡ TrackerAt.returned
      → s.timer ≡ TimerAt.returned
      → s.applier ≡ ApplyAt.returned
      → s.server ≡ ServerAt.returned
      → Step s [] (record s { main_returned = true })

-- A run, with what `Apply` receives in it.
pub data Run : System → List Event → System → Type 0 where
  stay : (s : System) → Run s [] s
  then_step :
      {s t u : System} {before now : List Event}
      → Run s before t
      → Step t now u
      → Run s (before ++ now) u
