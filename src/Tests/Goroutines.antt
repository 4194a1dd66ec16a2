-- ===== src/Tests/Goroutines.antt =====
-- A shutdown that starts while an increment is sent, and one that ends.
use connectivity_exporter.Prelude.{true, [], ◌∷◌, ◌++◌, ◌+◌, ◌≡◌, refl, ◌⊎◌}
use connectivity_exporter.Prelude.GoString.{bytes}
use connectivity_exporter.Metrics.Inc.{Inc}
use connectivity_exporter.Goroutines.{
  TrackerAt, TimerAt, ApplyAt, ServerAt, System, start, Step, Run,
}
use connectivity_exporter.Goroutines.Stuck.{Finishes, Stuck}
use connectivity_exporter.Goroutines.WaitGroup.{start_waiting, WaitRun}
use connectivity_exporter.Goroutines.WaitGroup.Counts.{WaitRun-iff}
use connectivity_exporter.Goroutines.Ends.{own_steps, brought, steps_left, IsAt, cancelled-IsAt}
use connectivity_exporter.Metrics.Loop.{inc_received, snapshot_received, zero_snapshot}
use connectivity_exporter.Promextra.{Snapshot}
use connectivity_exporter.Goroutines.Made.{incs_made, snapshots_made, zeros, zeros_list}
use connectivity_exporter.Goroutines.InOrder.{Run-InOrder}
use connectivity_exporter.Goroutines.Finish.{cancelled-Finishes}
use connectivity_exporter.Goroutines.Shutdown.{Hangs, Run-Hangs}

abbrev inc : Inc
inc = record {
  active_seconds = 1;
  failed_seconds = 0;
  active_failed_seconds = 0;
  successful_connections = 1;
  rejected_connections = 0;
  rejected_connections_by_client = 0;
  sni = bytes "a";
  source_ip = bytes "10.0.0.1";
  dest_ip = bytes "10.0.0.2";
}

abbrev sending : System
sending = record start { tracker = TrackerAt.sends (inc ∷ []); cancelled = true }

abbrev alone : System
alone = record sending { applier = ApplyAt.returned }

alone_reached : Run start [] alone
alone_reached =
    Run.then_step
      (Run.then_step (Run.then_step (Run.stay start) (Step.tick start (inc ∷ []) refl))
        (Step.signal _))
      (Step.apply_done sending refl refl)

alone-Hangs : Hangs inc [] alone
alone-Hangs = record { sending = refl; nobody = refl; waits = refl }

timer_back : Run alone [] (record alone { timer = TimerAt.returned })
timer_back = Run.then_step (Run.stay alone) (Step.timer_done alone refl refl)

Run-Hangs_example : Hangs inc [] (record alone { timer = TimerAt.returned })
Run-Hangs_example = Run-Hangs inc [] timer_back alone-Hangs

abbrev all_back : System
all_back = record start {
  tracker = TrackerAt.returned;
  timer = TimerAt.returned;
  applier = ApplyAt.returned;
  server = ServerAt.returned;
  cancelled = true;
}

joined : Run start [] (record all_back { main_returned = true })
joined =
    Run.then_step
      (Run.then_step
        (Run.then_step
          (Run.then_step
            (Run.then_step (Run.then_step (Run.stay start) (Step.signal start))
              (Step.server_done _ refl refl))
            (Step.tracker_done _ refl refl))
          (Step.timer_done _ refl refl))
        (Step.apply_done _ refl refl))
      (Step.main_done all_back refl refl refl refl refl)

WaitRun-iff_example :
    WaitRun start_waiting []
      (record { system = record all_back { main_returned = true }; count = 0 })
WaitRun-iff_example = (WaitRun-iff [] (record all_back { main_returned = true }) 0).1 (joined, refl)

cancelled-Finishes_example : Finishes sending ⊎ (Stuck sending × (¬ Finishes sending))
cancelled-Finishes_example = cancelled-Finishes sending refl refl

-- The increment is received, and then the tick is over.
sent : Run sending (inc_received inc ∷ []) (record sending { tracker = TrackerAt.selects })
sent =
    Run.then_step (Run.then_step (Run.stay sending) (Step.send_inc sending inc [] refl refl))
      (Step.tick_over _ refl)

cancelled-IsAt_example :
    (own_steps sent + steps_left (record sending { tracker = TrackerAt.selects })
      ≡ steps_left sending + brought sent)
    × IsAt (record sending { tracker = TrackerAt.selects })
cancelled-IsAt_example = cancelled-IsAt sending _ _ sent refl

abbrev full : Snapshot
full = record { total = 5; buckets = 1 ∷ [] }

-- A tick of each, both received, and a zero snapshot from the closed channel.
abbrev served : System
served = record start { timer = TimerAt.returned; cancelled = true }

serving :
    Run start
      (inc_received inc ∷ snapshot_received full ∷ snapshot_received zero_snapshot ∷ [])
      served
serving =
    Run.then_step
      (Run.then_step
        (Run.then_step
          (Run.then_step
            (Run.then_step
              (Run.then_step
                (Run.then_step (Run.then_step (Run.stay start) (Step.tick start (inc ∷ []) refl))
                  (Step.timer_tick _ full refl))
                (Step.send_inc _ inc [] refl refl))
              (Step.tick_over _ refl))
            (Step.send_snapshot _ full refl refl))
          (Step.signal _))
        (Step.timer_done _ refl refl))
      (Step.closed_snapshot served refl refl)

Run-InOrder_example :
    (inc ∷ [] ≡ incs_made serving)
    × (full ∷ zero_snapshot ∷ [] ≡ snapshots_made serving ++ zeros_list (zeros serving))
    × ((zeros serving ≡ 0) ⊎ (TimerAt.returned ≡ TimerAt.returned))
Run-InOrder_example = Run-InOrder serving
