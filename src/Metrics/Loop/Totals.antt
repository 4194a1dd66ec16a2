-- ===== src/Metrics/Loop/Totals.antt =====
-- The totals of a run of the loop of `Apply` of connectivity-exporter/metrics/metrics.go.
use connectivity_exporter.Prelude.{
  ℕ, Bool, true, false, ◌&&◌, ◌+◌, ◌^◌, ◌<◌, ◌≡◌, refl, ap, ◌∙◌, arith, List, [], ◌∷◌, ite, length,
  ◌==◌, if◌then◌else◌,
}
use connectivity_exporter.Prelude.Results.{Outcome, ok, panic}
use connectivity_exporter.Metrics.Inc.{Inc}
use connectivity_exporter.Metrics.CounterVec.{CounterVec, Labels, Labels-discrete}
use connectivity_exporter.Metrics.Apply.Additions.{raise}
use connectivity_exporter.Metrics.Apply.{Counters}
use connectivity_exporter.Metrics.Apply.Kinds.{
  Kind, ConnKind, label, conn_label, amount, conn_amount, key_of, reading, IsValid, has_text,
  apply-Applied, apply_panic,
}
use connectivity_exporter.Metrics.Loop.{
  Event, inc_received, snapshot_received, Exported, receive, receive_all,
}
use connectivity_exporter.Promextra.{Bounds, PrecomputedHistogram, Snapshot, apply_snapshot}
use connectivity_exporter.Promextra.Cumulative.{IsConsistent, apply_snapshot_lem}

-- The sum of a field over the increments of one key.
abbrev pub total_of : (Inc → ℕ) → Labels → List Event → ℕ
total_of field key [] = 0
total_of field key (inc_received inc ∷ events) =
    ite (Labels-discrete (key_of inc) key) (field inc) 0 + total_of field key events
total_of field key (snapshot_received s ∷ events) = total_of field key events

-- The last snapshot with one count for each of `n` bounds and one for +Inf.
abbrev pub last_fitting : ℕ → List Event → Snapshot → Snapshot
last_fitting n [] s = s
last_fitting n (inc_received inc ∷ events) s = last_fitting n events s
last_fitting n (snapshot_received t ∷ events) s =
    last_fitting n events (if length t.buckets == n + 1 then t else s)

-- The labels of each increment are valid UTF-8.
abbrev pub all_have_text : CounterVec → List Event → Bool
all_have_text C [] = true
all_have_text C (inc_received inc ∷ events) = has_text C inc && all_have_text C events
all_have_text C (snapshot_received s ∷ events) = all_have_text C events

both_true : (p q : Bool) → (p && q) ≡ true → (p ≡ true) × (q ≡ true)
both_true true q e = (refl, e)
both_true false q e = absurd (cc e)

raise-exact :
    (C : CounterVec) (own key : Labels) (x old rest : ℕ)
    → old + (ite (Labels-discrete own key) x 0 + rest) < 2 ^ 53
    → raise C own key x old ≡ old + ite (Labels-discrete own key) x 0
raise-exact C own key x old rest small = ground (arith, C.plus_exact old x)

module _ (C : CounterVec) (f : Bounds) where
  -- Every counter is valid, every label is valid UTF-8 and every total of a run stays exact.
  pub record Ready (events : List Event) (x : Exported C f) : Type 0 where
    pub valid : IsValid C x.counters
    pub texts : all_have_text C events ≡ true
    pub consistent : IsConsistent f x.execution
    pub seconds_fit :
        (k : Kind) (key : Labels)
        → reading C x.counters.seconds (label k ∷ key) + total_of (amount k) key events < 2 ^ 53
    pub connections_fit :
        (k : ConnKind) (key : Labels)
        → reading C x.counters.connections (conn_label k ∷ key)
            + total_of (conn_amount k) key events
          < 2 ^ 53

  abbrev pub latest : List Event → PrecomputedHistogram f → PrecomputedHistogram f
  latest events h = record h {
    current_snapshot = last_fitting (length h.bounds) events h.current_snapshot;
  }

  -- A run that returned, with the totals that it leaves.
  pub record Totalled (events : List Event) (x : Exported C f) (r : Outcome (Exported C f))
      : Type 0 where
    pub after : Exported C f
    pub returns : r ≡ ok after
    pub valid : IsValid C after.counters
    pub consistent : IsConsistent f after.execution
    pub seconds_at :
        (k : Kind) (key : Labels)
        → reading C after.counters.seconds (label k ∷ key)
          ≡ reading C x.counters.seconds (label k ∷ key) + total_of (amount k) key events
    pub connections_at :
        (k : ConnKind) (key : Labels)
        → reading C after.counters.connections (conn_label k ∷ key)
          ≡ reading C x.counters.connections (conn_label k ∷ key)
            + total_of (conn_amount k) key events
    pub execution : after.execution ≡ latest events x.execution

  after_snapshot :
      (h : PrecomputedHistogram f) (s : Snapshot)
      → IsConsistent f h
      → (apply_snapshot f h s).0 ≡ record h {
        current_snapshot =
            if length s.buckets == length h.bounds + 1 then s else h.current_snapshot;
      }
  after_snapshot h s consistent = ground (arith, apply_snapshot_lem f h s consistent)

  -- On valid counters and a consistent histogram, and while every total stays below 2 ^ 53, the
  -- loop of Apply does not panic on any sequence of snapshots and of increments whose SNI and
  -- addresses are valid UTF-8: each counter then holds what it held plus the sum of its field over
  -- the increments of its key, and the histogram holds the last snapshot with the right number of
  -- buckets.
  pub receive_all-Totalled :
      (events : List Event) (x : Exported C f)
      → Ready events x
      → Totalled events x (receive_all C f events x)
  unfolding receive_all
  receive_all-Totalled [] x ready = record {
    after = x;
    returns = refl;
    valid = ready.valid;
    consistent = ready.consistent;
    seconds_at = λ k key. omega arith;
    connections_at = λ k key. omega arith;
    execution = refl;
  }
  receive_all-Totalled (inc_received inc ∷ events) x ready =
      let (text, texts) = both_true (has_text C inc) (all_have_text C events) ready.texts in
      let a = apply-Applied C inc x.counters ready.valid text in
      let x1 : Exported C f = record x { counters = a.after } in
      let at1 : (k : Kind) (key : Labels)
          → reading C a.after.seconds (label k ∷ key)
            ≡ reading C x.counters.seconds (label k ∷ key)
              + ite (Labels-discrete (key_of inc) key) (amount k inc) 0 =
        λ k key.
          a.seconds_at k key
          ∙ raise-exact C (key_of inc) key (amount k inc) _ (total_of (amount k) key events)
              (ready.seconds_fit k key) in
      let at2 : (k : ConnKind) (key : Labels)
          → reading C a.after.connections (conn_label k ∷ key)
            ≡ reading C x.counters.connections (conn_label k ∷ key)
              + ite (Labels-discrete (key_of inc) key) (conn_amount k inc) 0 =
        λ k key.
          a.connections_at k key
          ∙ raise-exact C (key_of inc) key (conn_amount k inc) _
              (total_of (conn_amount k) key events) (ready.connections_fit k key) in
      let rest = receive_all-Totalled events x1 (record {
        valid = a.valid;
        texts = texts;
        consistent = ready.consistent;
        seconds_fit = λ k key. omega (arith, at1 k key, ready.seconds_fit k key);
        connections_fit = λ k key. omega (arith, at2 k key, ready.connections_fit k key);
      }) in
      record {
        after = rest.after;
        returns = rw a.returns rest.returns;
        valid = rest.valid;
        consistent = rest.consistent;
        seconds_at = λ k key. omega (arith, rest.seconds_at k key, at1 k key);
        connections_at = λ k key. omega (arith, rest.connections_at k key, at2 k key);
        execution = rest.execution;
      }
  receive_all-Totalled (snapshot_received s ∷ events) x ready =
      let (consistent, step) = apply_snapshot_lem f x.execution s ready.consistent in
      let rest =
        receive_all-Totalled events (record x { execution = (apply_snapshot f x.execution s).0 })
          (record {
            valid = ready.valid;
            texts = ready.texts;
            consistent = consistent;
            seconds_fit = ready.seconds_fit;
            connections_fit = ready.connections_fit;
          }) in
      record {
        after = rest.after;
        returns = rest.returns;
        valid = rest.valid;
        consistent = rest.consistent;
        seconds_at = rest.seconds_at;
        connections_at = rest.connections_at;
        execution =
            rest.execution ∙ ap (latest events) (after_snapshot x.execution s ready.consistent);
      }

  -- On counters made with four labels the loop of Apply panics on any sequence of snapshots and
  -- increments in which the SNI or an address of some increment is not valid UTF-8.
  pub receive_all_panics :
      (events : List Event) (x : Exported C f)
      → IsValid C x.counters
      → all_have_text C events ≡ false
      → receive_all C f events x ≡ panic
  unfolding receive_all
  receive_all_panics [] x valid bad = absurd (cc bad)
  receive_all_panics (snapshot_received s ∷ events) x valid bad =
      receive_all_panics events (record x { execution = (apply_snapshot f x.execution s).0 }) valid
        bad
  receive_all_panics (inc_received inc ∷ events) x valid bad =
      by_text (λ m v e. receive_all_panics events (record x { counters = m }) v e) (has_text C inc)
        refl
    where
      by_text :
          ((m : Counters C)
            → IsValid C m
            → all_have_text C events ≡ false
            → receive_all C f events (record x { counters = m }) ≡ panic)
          → (t : Bool) → has_text C inc ≡ t
          → receive_all C f (inc_received inc ∷ events) x ≡ panic
      by_text rest false e = rw (receive_all, receive, apply_panic C inc x.counters valid e) refl
      by_text rest true e =
          let a = apply-Applied C inc x.counters valid e in
          rw (receive_all, receive, a.returns) (rest a.after a.valid (rw e at bad))

  -- So a run that returns had only valid labels.
  pub returned-texts :
      (events : List Event) (x z : Exported C f)
      → IsValid C x.counters
      → receive_all C f events x ≡ ok z
      → all_have_text C events ≡ true
  returned-texts events x z valid returned = by_texts (all_have_text C events) refl
    where
      by_texts : (t : Bool) → all_have_text C events ≡ t → all_have_text C events ≡ true
      by_texts true e = e
      by_texts false e = absurd (cc (receive_all_panics events x valid e, returned))
