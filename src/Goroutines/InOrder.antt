-- ===== src/Goroutines/InOrder.antt =====
-- What `Apply` of connectivity-exporter/metrics/metrics.go receives from the other loops.
use mathlib.Core.List.{append-nil, append_assoc}
use connectivity_exporter.Prelude.{
  ℕ, zero, suc, ◌+◌, ◌≡◌, ◌⊎◌, inl, inr, refl, sym, ap, ◌∙◌, arith, List, [], ◌∷◌, ◌++◌,
}
use connectivity_exporter.Metrics.Loop.{
  Event, inc_received, snapshot_received, zero_snapshot, incs_of,
}
use connectivity_exporter.Promextra.{Snapshot}
use connectivity_exporter.Goroutines.{TimerAt, System, start, Step, Run}
use connectivity_exporter.Goroutines.Made.{
  snapshots_in, incs_left, snapshots_left, incs_of_step, snapshots_of_step, incs_made,
  snapshots_made, zeros_of_step, zeros, zeros_list,
}

incs_of-append : (xs ys : List Event) → incs_of (xs ++ ys) ≡ incs_of xs ++ incs_of ys
incs_of-append [] ys = refl
incs_of-append (inc_received inc ∷ xs) ys = ap (λ l. inc ∷ l) (incs_of-append xs ys)
incs_of-append (snapshot_received s ∷ xs) ys = incs_of-append xs ys

snapshots_in-append :
    (xs ys : List Event) → snapshots_in (xs ++ ys) ≡ snapshots_in xs ++ snapshots_in ys
snapshots_in-append [] ys = refl
snapshots_in-append (inc_received inc ∷ xs) ys = snapshots_in-append xs ys
snapshots_in-append (snapshot_received s ∷ xs) ys = ap (λ l. s ∷ l) (snapshots_in-append xs ys)

-- A step hands over from the front what was left, and leaves what it makes.
step-incs :
    {s t : System} {now : List Event} (step : Step s now t)
    → incs_of now ++ incs_left t.tracker ≡ incs_left s.tracker ++ incs_of_step step
step-incs (Step.signal s) = sym (append-nil _)
step-incs (Step.tick s incs p) = rw p refl
step-incs (Step.send_inc s inc incs p q) = rw p (sym (append-nil _))
step-incs (Step.tick_over s p) = rw p refl
step-incs (Step.tracker_done s p q) = rw p refl
step-incs (Step.timer_tick s x p) = sym (append-nil _)
step-incs (Step.send_snapshot s x p q) = sym (append-nil _)
step-incs (Step.timer_done s p q) = sym (append-nil _)
step-incs (Step.closed_snapshot s p q) = sym (append-nil _)
step-incs (Step.apply_done s p q) = sym (append-nil _)
step-incs (Step.server_done s p q) = sym (append-nil _)
step-incs (Step.main_done s c p q r v) = sym (append-nil _)

run-incs :
    {s t : System} {received : List Event} (run : Run s received t)
    → incs_of received ++ incs_left t.tracker ≡ incs_left s.tracker ++ incs_made run
run-incs (Run.stay s) = sym (append-nil _)
run-incs {s} {t} (Run.then_step {t = u} {before} {now} run step) =
    ap (λ l. l ++ incs_left t.tracker) (incs_of-append before now)
    ∙ append_assoc (incs_of before) (incs_of now) (incs_left t.tracker)
    ∙ ap (λ l. incs_of before ++ l) (step-incs step)
    ∙ sym (append_assoc (incs_of before) (incs_left u.tracker) (incs_of_step step))
    ∙ ap (λ l. l ++ incs_of_step step) (run-incs run)
    ∙ append_assoc (incs_left s.tracker) (incs_made run) (incs_of_step step)

step-snapshots :
    {s t : System} {now : List Event} (step : Step s now t)
    → snapshots_in now ++ snapshots_left t.timer
      ≡ snapshots_left s.timer ++ (snapshots_of_step step ++ zeros_list (zeros_of_step step))
step-snapshots (Step.signal s) = sym (append-nil _)
step-snapshots (Step.tick s incs p) = sym (append-nil _)
step-snapshots (Step.send_inc s inc incs p q) = sym (append-nil _)
step-snapshots (Step.tick_over s p) = sym (append-nil _)
step-snapshots (Step.tracker_done s p q) = sym (append-nil _)
step-snapshots (Step.timer_tick s x p) = rw p refl
step-snapshots (Step.send_snapshot s x p q) = rw p refl
step-snapshots (Step.timer_done s p q) = rw p refl
step-snapshots (Step.closed_snapshot s p q) = rw p refl
step-snapshots (Step.apply_done s p q) = sym (append-nil _)
step-snapshots (Step.server_done s p q) = sym (append-nil _)
step-snapshots (Step.main_done s c p q r v) = sym (append-nil _)

-- A timer that is back makes none, and stays back.
step-returned :
    {s t : System} {now : List Event} (step : Step s now t)
    → s.timer ≡ TimerAt.returned
    → (snapshots_of_step step ≡ []) × (t.timer ≡ TimerAt.returned)
step-returned (Step.signal s) e = (refl, e)
step-returned (Step.tick s incs p) e = (refl, e)
step-returned (Step.send_inc s inc incs p q) e = (refl, e)
step-returned (Step.tick_over s p) e = (refl, e)
step-returned (Step.tracker_done s p q) e = (refl, e)
step-returned (Step.timer_tick s x p) e = absurd (cc (p, e))
step-returned (Step.send_snapshot s x p q) e = absurd (cc (p, e))
step-returned (Step.timer_done s p q) e = (refl, refl)
step-returned (Step.closed_snapshot s p q) e = (refl, e)
step-returned (Step.apply_done s p q) e = (refl, e)
step-returned (Step.server_done s p q) e = (refl, e)
step-returned (Step.main_done s c p q r v) e = (refl, e)

step-zeros :
    {s t : System} {now : List Event} (step : Step s now t)
    → (zeros_of_step step ≡ 0) ⊎ (t.timer ≡ TimerAt.returned)
step-zeros (Step.signal s) = inl refl
step-zeros (Step.tick s incs p) = inl refl
step-zeros (Step.send_inc s inc incs p q) = inl refl
step-zeros (Step.tick_over s p) = inl refl
step-zeros (Step.tracker_done s p q) = inl refl
step-zeros (Step.timer_tick s x p) = inl refl
step-zeros (Step.send_snapshot s x p q) = inl refl
step-zeros (Step.timer_done s p q) = inl refl
step-zeros (Step.closed_snapshot s p q) = inr p
step-zeros (Step.apply_done s p q) = inl refl
step-zeros (Step.server_done s p q) = inl refl
step-zeros (Step.main_done s c p q r v) = inl refl

run-zeros :
    {s t : System} {received : List Event} (run : Run s received t)
    → (zeros run ≡ 0) ⊎ (t.timer ≡ TimerAt.returned)
run-zeros (Run.stay s) = inl refl
run-zeros (Run.then_step run step) = elim (run-zeros run) [
  | inr back ↦ inr (step-returned step back).1
  | inl none_before ↦ elim (step-zeros step) [
    | inr back ↦ inr back
    | inl none_now ↦ inl (omega arith)
  ]
]

zeros_list-add : (n z : ℕ) → zeros_list (n + z) ≡ zeros_list n ++ zeros_list z
zeros_list-add zero z = ap zeros_list (omega arith)
zeros_list-add (suc n) z =
    let e : suc n + z ≡ suc (n + z) = omega arith in
    ap zeros_list e ∙ ap (λ l. zero_snapshot ∷ l) (zeros_list-add n z)

-- What is made after a zero snapshot is none.
made_first :
    (n z : ℕ) (made : List Snapshot)
    → (n ≡ 0) ⊎ (made ≡ [])
    → zeros_list n ++ (made ++ zeros_list z) ≡ made ++ zeros_list (n + z)
made_first n z made (inl e) =
    ap (λ k. zeros_list k ++ (made ++ zeros_list z)) e
    ∙ ap (λ k. made ++ zeros_list k) (omega arith)
made_first n z made (inr e) =
    ap (λ l. zeros_list n ++ (l ++ zeros_list z)) e
    ∙ sym (zeros_list-add n z)
    ∙ ap (λ l. l ++ zeros_list (n + z)) (sym e)

made_or_back :
    {s t u : System} {before now : List Event} (run : Run s before t) (step : Step t now u)
    → (zeros run ≡ 0) ⊎ (snapshots_of_step step ≡ [])
made_or_back run step = elim (run-zeros run) [
  | inl none ↦ inl none
  | inr back ↦ inr (step-returned step back).0
]

run-snapshots :
    {s t : System} {received : List Event} (run : Run s received t)
    → snapshots_in received ++ snapshots_left t.timer
      ≡ snapshots_left s.timer ++ (snapshots_made run ++ zeros_list (zeros run))
run-snapshots (Run.stay s) = sym (append-nil _)
run-snapshots {s} {t} (Run.then_step {t = u} {before} {now} run step) =
    let made = snapshots_of_step step in
    let z = zeros_of_step step in
    ap (λ l. l ++ snapshots_left t.timer) (snapshots_in-append before now)
    ∙ append_assoc (snapshots_in before) (snapshots_in now) (snapshots_left t.timer)
    ∙ ap (λ l. snapshots_in before ++ l) (step-snapshots step)
    ∙ sym (append_assoc (snapshots_in before) (snapshots_left u.timer) (made ++ zeros_list z))
    ∙ ap (λ l. l ++ (made ++ zeros_list z)) (run-snapshots run)
    ∙ append_assoc (snapshots_left s.timer) (snapshots_made run ++ zeros_list (zeros run))
        (made ++ zeros_list z)
    ∙ ap (λ l. snapshots_left s.timer ++ l)
        (append_assoc (snapshots_made run) (zeros_list (zeros run)) (made ++ zeros_list z)
          ∙ ap (λ l. snapshots_made run ++ l)
              (made_first (zeros run) z made (made_or_back run step))
          ∙ sym (append_assoc (snapshots_made run) made (zeros_list (zeros run + z))))

-- In a run from the start, what `Apply` has received is in order: of the increments, those that the
-- ticks made, one tick after another, each once, but for those that are still to be sent; of the
-- snapshots, those that the ticks made, but for one that is still to be sent, and then zero
-- snapshots, which come only after `TrackExecutionTime` has returned.
pub Run-InOrder :
    {s : System} {received : List Event} (run : Run start received s)
    → (incs_of received ++ incs_left s.tracker ≡ incs_made run)
      × (snapshots_in received ++ snapshots_left s.timer
          ≡ snapshots_made run ++ zeros_list (zeros run))
      × ((zeros run ≡ 0) ⊎ (s.timer ≡ TimerAt.returned))
Run-InOrder run = (run-incs run, run-snapshots run, run-zeros run)
