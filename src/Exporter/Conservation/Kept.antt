-- ===== src/Exporter/Conservation/Kept.antt =====
-- One tick of the exporter, with what `Apply` makes of its increments and the kernel's writes.
use connectivity_exporter.Prelude.{
  ℕ, suc, ◌+◌, ◌^◌, ◌≤◌, ◌<◌, ◌≡◌, sym, subst, ap, ◌∙◌, arith, List, [], ◌∷◌, refl, none, true,
}
use connectivity_exporter.Prelude.Results.{ok, ok-injective}
use connectivity_exporter.Metrics.CounterVec.{CounterVec, Labels}
use connectivity_exporter.Metrics.Inc.{Inc}
use connectivity_exporter.Metrics.Apply.Kinds.{
  Kind, ConnKind, successful, rejected, amount, conn_amount, IsValid,
}
use connectivity_exporter.Metrics.Loop.{Event, Exported, receive_all}
use connectivity_exporter.Metrics.Loop.Totals.{
  total_of, Ready, receive_all-Totalled, all_have_text, returned-texts,
}
use connectivity_exporter.Promextra.{Bounds}
use connectivity_exporter.Promextra.Cumulative.{IsConsistent}
use connectivity_exporter.Packet.Connection.{ConnKey}
use connectivity_exporter.Packet.Ebpf.{Bpf, Kernel, Stats}
use connectivity_exporter.Packet.Tracker.{Locals}
use connectivity_exporter.Packet.Ring.{IsRing}
use connectivity_exporter.Packet.Ring.Pops.{IsRing-same}
use connectivity_exporter.Packet.Ring.Counted.{Adds}
use connectivity_exporter.Packet.Ring.Counted.Ticks.{counted-Adds}
use connectivity_exporter.Exporter.{received}
use connectivity_exporter.Exporter.Incs.{labels_of}
use connectivity_exporter.Exporter.Totals.{of_labels, total_of-incs_of, count_of}
use connectivity_exporter.Metrics.Loop.{incs_of}
use connectivity_exporter.Exporter.Conservation.{
  World, in_ring, connections_at, seconds_at, Fits, delete_expired,
}
use connectivity_exporter.Prelude.GoString.{GoString}
use connectivity_exporter.Metrics.Apply.Deletion.{delete_metrics-noop}
use connectivity_exporter.Exporter.Conservation.Moves.{count_of-IsCount, of_labels-sum, Moves}

abbrev pub plus : (ConnKey → Stats) → (ConnKey → Stats) → ConnKey → Stats
plus written added k = ((written k).0 + (added k).0, (written k).1 + (added k).1)

module _ (C : CounterVec) (f : Bounds) (b : Bpf) (slots : ℕ → ℕ)
    (complete : (m : b.inner.Map) → (b.inner.iterate m).1 ≡ none) (x : World C f b) where
  abbrev pub of_kind : (ConnKey → Stats) → ConnKind → Labels → ℕ
  of_kind written kind = of_labels (λ k. count_of kind (written k))

  of_kind-plus :
      (written added : ConnKey → Stats) (kind : ConnKind) (key : Labels)
      → of_kind (plus written added) kind key ≡ of_kind written kind key + of_kind added kind key
  of_kind-plus written added kind key =
      of_labels-sum _ _ _ key (λ k. (count_of-IsCount kind).adds_up (written k) (added k))

  -- What holds of the world `y` after `n` ticks of a run from `x`.
  pub record Kept (n : ℕ) (written : ConnKey → Stats) (y : World C f b) : Type 0 where
    pub ring : IsRing b slots y.kernel
    pub clock : y.locals.current_ticker_clock ≤ x.locals.current_ticker_clock + n
    pub valid : IsValid C y.exported.counters
    pub consistent : IsConsistent f y.exported.execution
    pub seconds :
        (kind : Kind) (key : Labels) → seconds_at C f b y kind key ≤ seconds_at C f b x kind key + n
    pub connections :
        (kind : ConnKind) (key : Labels)
        → connections_at C f b y kind key + of_labels (in_ring C f b slots y kind) key
          ≡ connections_at C f b x kind key
            + of_labels (in_ring C f b slots x kind) key
            + of_kind written kind key

  pub Fits-before :
      (n : ℕ) (written added : ConnKey → Stats)
      → Fits C f b slots x (suc n) (plus written added)
      → Fits C f b slots x n written
  Fits-before n written added fits = record {
    clock = omega (arith, fits.clock);
    seconds = λ kind key. omega (arith, fits.seconds kind key);
    connections =
        λ kind key. omega (arith, fits.connections kind key, of_kind-plus written added kind key);
    keys = λ k. omega (arith, fits.keys k);
  }

  module _ (n : ℕ) (written added : ConnKey → Stats) (y : World C f b) (kept : Kept n written y)
      (fits : Fits C f b slots x (suc n) (plus written added)) where
    pub kept-exact :
        (k : ConnKey)
        → in_ring C f b slots y successful k + in_ring C f b slots y rejected k < 2 ^ 53
    kept-exact k = omega (
      arith,
      kept.connections successful (labels_of k),
      kept.connections rejected (labels_of k),
      (Fits-before n written added fits).keys k,
    )

    module _ (l : Locals) (w1 w2 : Kernel b) (incs : List Inc) (events : List Event)
        (z : Exported C f) (m : Moves b slots y.locals l y.kernel w1 incs)
        (same : incs_of events ≡ incs) where
      -- The world when the tick is over, and when the kernel has written.
      abbrev pub ticked : World C f b
      ticked = record { locals = l; kernel = w1; exported = z }

      abbrev pub wrote : World C f b
      wrote = record { locals = l; kernel = w2; exported = z }

      sent_connections :
          (kind : ConnKind) (key : Labels)
          → total_of (conn_amount kind) key events ≡ of_kind m.sent kind key
      sent_connections kind key =
          total_of-incs_of (conn_amount kind) key events
          ∙ ap (λ is. total_of (conn_amount kind) key (received is)) same
          ∙ m.connections kind key

      sent_seconds : (kind : Kind) (key : Labels) → total_of (amount kind) key events ≤ 1
      sent_seconds kind key = omega (
        arith,
        total_of-incs_of (amount kind) key events,
        ap (λ is. total_of (amount kind) key (received is)) same,
        m.seconds kind key,
      )

      -- What the tick takes out of the ring, and what the kernel adds to it.
      ring_drained :
          (kind : ConnKind) (key : Labels)
          → of_labels (in_ring C f b slots y kind) key
            ≡ of_labels (in_ring C f b slots ticked kind) key + of_kind m.sent kind key
      ring_drained kind key = of_labels-sum _ _ _ key (m.drained kind)

      ring_added :
          (kind : ConnKind) (key : Labels)
          → Adds b slots added w1 w2
          → of_labels (in_ring C f b slots wrote kind) key
            ≡ of_labels (in_ring C f b slots ticked kind) key + of_kind added kind key
      ring_added kind key adds = of_labels-sum _ _ _ key (λ k.
          counted-Adds b complete slots (count_of kind) (count_of-IsCount kind)
            l.current_ticker_clock added w1 w2 k m.ring adds)

      pub events-Ready : all_have_text C events ≡ true → Ready C f events y.exported
      events-Ready texts = record {
        valid = kept.valid;
        texts = texts;
        consistent = kept.consistent;
        seconds_fit = λ kind key.
            omega (arith, sent_seconds kind key, kept.seconds kind key, fits.seconds kind key);
        connections_fit = λ kind key. omega (
          arith,
          sent_connections kind key,
          ring_drained kind key,
          kept.connections kind key,
          (Fits-before n written added fits).connections kind key,
        );
      }

      pub step-Kept :
          receive_all C f events y.exported ≡ ok z
          → Adds b slots added w1 w2
          → Kept (suc n) (plus written added) wrote
      step-Kept returned adds =
          let a =
            receive_all-Totalled C f events y.exported
              (events-Ready (returned-texts C f events y.exported z kept.valid returned)) in
          let z_is : a.after ≡ z = ok-injective (sym a.returns ∙ returned) in
          record {
            ring = IsRing-same b slots w1 w2 adds.same_slots m.ring;
            clock = omega (arith, m.clock, kept.clock);
            valid = subst (λ t. IsValid C t.counters) z_is a.valid;
            consistent = subst (λ t. IsConsistent f t.execution) z_is a.consistent;
            seconds = λ kind key. omega (
              arith,
              ap (λ t. seconds_at C f b (record wrote { exported = t }) kind key) z_is,
              a.seconds_at kind key,
              sent_seconds kind key,
              kept.seconds kind key,
            );
            connections = λ kind key. omega (
              arith,
              ap (λ t. connections_at C f b (record wrote { exported = t }) kind key) z_is,
              a.connections_at kind key,
              sent_connections kind key,
              ring_drained kind key,
              ring_added kind key adds,
              kept.connections kind key,
              of_kind-plus written added kind key,
            );
          }

-- On valid counters the deletions delete nothing.
pub delete_expired-noop :
    (C : CounterVec) (f : Bounds) (b : Bpf) (names : List GoString) (z : Exported C f)
    → IsValid C z.counters
    → delete_expired C f b names z ≡ z
unfolding delete_expired
delete_expired-noop C f b [] z valid = refl
delete_expired-noop C f b (sni ∷ names) z valid =
    let same = delete_metrics-noop C z.counters sni valid in
    ap (λ m. delete_expired C f b names (record z { counters = m })) same
    ∙ delete_expired-noop C f b names z valid
