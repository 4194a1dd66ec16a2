-- ===== src/Exporter/Conservation.antt =====
-- Runs of the whole exporter: the ticks of `TrackConnections` of
-- connectivity-exporter/packet/packet.go, the kernel's writes between them, and what `Apply` of
-- connectivity-exporter/metrics/metrics.go makes of the increments.

pub mod Moves
pub mod Kept
pub mod Runs
pub mod Delivered
use connectivity_exporter.Prelude.{ℕ, zero, suc, ◌+◌, ◌^◌, ◌<◌, ◌≡◌, List, [], ◌∷◌}
use connectivity_exporter.Prelude.Results.{Error, ok, err}
use connectivity_exporter.Metrics.CounterVec.{CounterVec, Labels}
use connectivity_exporter.Prelude.GoString.{GoString}
use connectivity_exporter.Metrics.Apply.{delete_metrics}
use connectivity_exporter.Metrics.Apply.Kinds.{
  Kind, ConnKind, successful, rejected, rejected_by_client, label, conn_label, reading,
}
use connectivity_exporter.Metrics.Loop.{Event, Exported, receive_all}
use connectivity_exporter.Promextra.{Bounds}
use connectivity_exporter.Packet.Connection.{ConnKey}
use connectivity_exporter.Packet.Ebpf.{Bpf, Kernel, Stats}
use connectivity_exporter.Packet.Tracker.{Env, Locals, Report, tick}
use connectivity_exporter.Packet.Ring.Counted.{counted, Adds}
use connectivity_exporter.Exporter.Incs.{labels_of}
use connectivity_exporter.Exporter.Totals.{of_labels, count_of}
use connectivity_exporter.Metrics.Loop.{incs_of}

module _ (C : CounterVec) (f : Bounds) (b : Bpf) where
  pub record World : Type 0 where
    pub locals : Locals
    pub kernel : Kernel b
    pub exported : Exported C f

  -- What a scrape reads.
  abbrev pub connections_at : World → ConnKind → Labels → ℕ
  connections_at x kind key = reading C x.exported.counters.connections (conn_label kind ∷ key)

  abbrev pub seconds_at : World → Kind → Labels → ℕ
  seconds_at x kind key = reading C x.exported.counters.seconds (label kind ∷ key)

  -- The calls of `DeleteMetrics` for the expired SNIs of a tick.
  unfoldable pub delete_expired : List GoString → Exported C f → Exported C f
  delete_expired [] z = z
  delete_expired (sni ∷ names) z =
      delete_expired names (record z { counters = delete_metrics C sni z.counters })

  module _ (slots : ℕ → ℕ) where
    -- The connections of a key that are still in the ring.
    abbrev pub in_ring : World → ConnKind → ConnKey → ℕ
    in_ring x kind = counted b slots (count_of kind) x.kernel x.locals.current_ticker_clock

    -- Room for a run of `n` ticks in which the kernel counts `written`: no clock wraps, and every
    -- count stays one that a float64 holds exactly.
    pub record Fits (x : World) (n : ℕ) (written : ConnKey → Stats) : Type 0 where
      pub clock : x.locals.current_ticker_clock + n + 1 < 2 ^ 64
      pub seconds : (kind : Kind) (key : Labels) → seconds_at x kind key + n < 2 ^ 53
      pub connections :
          (kind : ConnKind) (key : Labels)
          → connections_at x kind key
              + of_labels (in_ring x kind) key
              + of_labels (λ k. count_of kind (written k)) key
            < 2 ^ 53
      -- of both kinds together
      pub keys :
          (k : ConnKey)
          → (connections_at x successful (labels_of k) + in_ring x successful k + (written k).0)
              + (connections_at x rejected (labels_of k) + in_ring x rejected k + (written k).1)
            < 2 ^ 53

    -- Between two worlds every connection is accounted for: what the counters show and what is
    -- still in the ring has grown by what the kernel has counted.
    pub record Conserves (x : World) (written : ConnKey → Stats) (y : World) : Type 0 where
      pub successful :
          (k : ConnKey)
          → connections_at y successful (labels_of k) + in_ring y successful k
            ≡ connections_at x successful (labels_of k) + in_ring x successful k + (written k).0
      pub rejected :
          (k : ConnKey)
          → connections_at y rejected (labels_of k) + in_ring y rejected k
            ≡ connections_at x rejected (labels_of k) + in_ring x rejected k + (written k).1
      pub by_client :
          (k : ConnKey)
          → connections_at y rejected_by_client (labels_of k)
            ≡ connections_at x rejected_by_client (labels_of k)

  module _ (slots : ℕ → ℕ) (env_at : ℕ → Env) where
    -- A run, with the number of its ticks and the connections of each key that the kernel has
    -- counted in it. In each tick, which reports or logs an error, `Apply` receives the increments
    -- that are sent and any snapshots between them; then the tick deletes the metrics of the SNIs
    -- that have expired, and the kernel writes, in the
    -- slot of whatever clock it has.
    pub data Exporting (x : World) : ℕ → (ConnKey → Stats) → World → Type 0 where
      here : Exporting x zero (λ k. (0, 0)) x
      reporting :
          {n : ℕ} {written : ConnKey → Stats} {y : World}
          → Exporting x n written y
          → (r : Report) (l : Locals) (w1 w2 : Kernel b) (events : List Event) (z : Exported C f)
            (added : ConnKey → Stats)
          → tick b (env_at n) y.locals y.kernel ≡ (l, w1, ok r)
          → incs_of events ≡ r.incs
          → receive_all C f events y.exported ≡ ok z
          → Adds b slots added w1 w2
          → Exporting x
              (suc n)
              (λ k. ((written k).0 + (added k).0, (written k).1 + (added k).1))
              (record { locals = l; kernel = w2; exported = delete_expired r.deleted z })
      failing :
          {n : ℕ} {written : ConnKey → Stats} {y : World}
          → Exporting x n written y
          → (e : Error) (l : Locals) (w1 w2 : Kernel b) (events : List Event) (z : Exported C f)
            (added : ConnKey → Stats)
          → tick b (env_at n) y.locals y.kernel ≡ (l, w1, err e)
          → incs_of events ≡ []
          → receive_all C f events y.exported ≡ ok z
          → Adds b slots added w1 w2
          → Exporting x
              (suc n)
              (λ k. ((written k).0 + (added k).0, (written k).1 + (added k).1))
              (record { locals = l; kernel = w2; exported = z })
