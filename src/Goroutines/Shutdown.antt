-- ===== src/Goroutines/Shutdown.antt =====
-- The shutdown of connectivity-exporter/main.go: who waits for whom.
use connectivity_exporter.Prelude.{false, List, ◌∷◌, ◌≡◌, refl, ◌⊎◌, inl, inr}
use connectivity_exporter.Metrics.Inc.{Inc}
use connectivity_exporter.Metrics.Loop.{Event}
use connectivity_exporter.Goroutines.{
  TrackerAt, TimerAt, ApplyAt, ServerAt, System, start, Step, Run,
}

-- `TrackConnections` sends, and nobody is left to receive.
pub record Hangs (inc : Inc) (incs : List Inc) (s : System) : Type 0 where
  pub sending : s.tracker ≡ TrackerAt.sends (inc ∷ incs)
  pub nobody : s.applier ≡ ApplyAt.returned
  pub waits : s.main_returned ≡ false

-- While one hangs, no step helps.
Step-Hangs :
    {s t : System} {now : List Event} (inc : Inc) (incs : List Inc)
    → Step s now t
    → Hangs inc incs s
    → Hangs inc incs t
Step-Hangs inc incs (Step.signal s) h = record {
  sending = h.sending;
  nobody = h.nobody;
  waits = h.waits;
}
Step-Hangs inc incs (Step.tick s js p) h = absurd (cc (h.sending, p))
Step-Hangs inc incs (Step.send_inc s i js p q) h = absurd (cc (h.nobody, q))
Step-Hangs inc incs (Step.tick_over s p) h = absurd (cc (h.sending, p))
Step-Hangs inc incs (Step.tracker_done s p q) h = absurd (cc (h.sending, p))
Step-Hangs inc incs (Step.timer_tick s x p) h = record {
  sending = h.sending;
  nobody = h.nobody;
  waits = h.waits;
}
Step-Hangs inc incs (Step.send_snapshot s x p q) h = absurd (cc (h.nobody, q))
Step-Hangs inc incs (Step.timer_done s p q) h = record {
  sending = h.sending;
  nobody = h.nobody;
  waits = h.waits;
}
Step-Hangs inc incs (Step.closed_snapshot s p q) h = absurd (cc (h.nobody, q))
Step-Hangs inc incs (Step.apply_done s p q) h = absurd (cc (h.nobody, p))
Step-Hangs inc incs (Step.server_done s p q) h = record {
  sending = h.sending;
  nobody = h.nobody;
  waits = h.waits;
}
Step-Hangs inc incs (Step.main_done s c p q r v) h = absurd (cc (h.sending, p))

-- Once `TrackConnections` sends an increment and `Apply` has returned, both stay so in every run,
-- and `main` never returns.
pub Run-Hangs :
    {s t : System} {received : List Event} (inc : Inc) (incs : List Inc)
    → Run s received t
    → Hangs inc incs s
    → Hangs inc incs t
Run-Hangs inc incs (Run.stay s) h = h
Run-Hangs inc incs (Run.then_step run step) h = Step-Hangs inc incs step (Run-Hangs inc incs run h)

-- `main` has not returned, or the four goroutines have.
abbrev pub IsJoined : System → Type 0
IsJoined s =
    (s.main_returned ≡ false)
    ⊎ ((s.tracker ≡ TrackerAt.returned)
        × (s.timer ≡ TimerAt.returned)
        × (s.applier ≡ ApplyAt.returned)
        × (s.server ≡ ServerAt.returned))

Step-IsJoined : {s t : System} {now : List Event} → Step s now t → IsJoined s → IsJoined t
Step-IsJoined (Step.signal s) (inl m) = inl m
Step-IsJoined (Step.signal s) (inr (t, u, v, x)) = inr (t, u, v, x)
Step-IsJoined (Step.tick s js p) (inl m) = inl m
Step-IsJoined (Step.tick s js p) (inr (t, u, v, x)) = absurd (cc (t, p))
Step-IsJoined (Step.send_inc s i js p q) (inl m) = inl m
Step-IsJoined (Step.send_inc s i js p q) (inr (t, u, v, x)) = absurd (cc (v, q))
Step-IsJoined (Step.tick_over s p) (inl m) = inl m
Step-IsJoined (Step.tick_over s p) (inr (t, u, v, x)) = absurd (cc (t, p))
Step-IsJoined (Step.tracker_done s p q) (inl m) = inl m
Step-IsJoined (Step.tracker_done s p q) (inr (t, u, v, x)) = inr (refl, u, v, x)
Step-IsJoined (Step.timer_tick s y p) (inl m) = inl m
Step-IsJoined (Step.timer_tick s y p) (inr (t, u, v, x)) = absurd (cc (u, p))
Step-IsJoined (Step.send_snapshot s y p q) (inl m) = inl m
Step-IsJoined (Step.send_snapshot s y p q) (inr (t, u, v, x)) = absurd (cc (v, q))
Step-IsJoined (Step.timer_done s p q) (inl m) = inl m
Step-IsJoined (Step.timer_done s p q) (inr (t, u, v, x)) = inr (t, refl, v, x)
Step-IsJoined (Step.closed_snapshot s p q) (inl m) = inl m
Step-IsJoined (Step.closed_snapshot s p q) (inr (t, u, v, x)) = absurd (cc (v, q))
Step-IsJoined (Step.apply_done s p q) (inl m) = inl m
Step-IsJoined (Step.apply_done s p q) (inr (t, u, v, x)) = inr (t, u, refl, x)
Step-IsJoined (Step.server_done s p q) (inl m) = inl m
Step-IsJoined (Step.server_done s p q) (inr (t, u, v, x)) = inr (t, u, v, refl)
Step-IsJoined (Step.main_done s c p q r v) h = inr (p, q, r, v)

-- In a run from the start, `main` returns only after the four goroutines have.
pub Run-IsJoined : {s : System} {received : List Event} → Run start received s → IsJoined s
Run-IsJoined run = from run (inl refl)
  where
    from : {s t : System} {received : List Event} → Run s received t → IsJoined s → IsJoined t
    from (Run.stay s) h = h
    from (Run.then_step run step) h = Step-IsJoined step (from run h)
