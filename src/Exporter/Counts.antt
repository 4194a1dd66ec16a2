-- ===== src/Exporter/Counts.antt =====
-- From the kernel's counts in a slot to the exported counters.
use connectivity_exporter.Prelude.{ℕ, ◌+◌, ◌%◌, ◌≡◌, refl, ap, ◌∙◌, arith, [], ◌∷◌, some, ltb, All}
use connectivity_exporter.Prelude.GoMap.{GoMap, keys}
use connectivity_exporter.Prelude.Results.{ok, found}
use connectivity_exporter.Metrics.Inc.{Inc}
use connectivity_exporter.Metrics.CounterVec.{CounterVec}
use connectivity_exporter.Metrics.Apply.{Counters}
use connectivity_exporter.Metrics.Apply.Kinds.{
  Kind, active, active_failed, ConnKind, successful, rejected, rejected_by_client, label,
  conn_label, amount, conn_amount, reading,
}
use connectivity_exporter.Metrics.Loop.{Exported, receive_all}
use connectivity_exporter.Metrics.Loop.Totals.{total_of, Ready, receive_all-Totalled}
use connectivity_exporter.Promextra.{Bounds}
use connectivity_exporter.Packet.Connection.{ConnKey, ConnKey-discrete}
use connectivity_exporter.Packet.Ebpf.{Bpf, Kernel, Stats}
use connectivity_exporter.Packet.Tracker.{Env, Locals, Report, tick, collect_stats, get_or}
use connectivity_exporter.Packet.Tracker.Keys.{collect_stats-IsMap}
use connectivity_exporter.Packet.Tracker.Collected.{AllStats, collect_stats-AllStats}
use connectivity_exporter.Packet.Tracker.Reports.{Ranges, TickReport, tick-TickReport}
use connectivity_exporter.Exporter.{received}
use connectivity_exporter.Exporter.Incs.{labels_of}
use connectivity_exporter.Exporter.Says.{IsExact, flag, Says, total_of-counts}

module _ (C : CounterVec) (f : Bounds) (b : Bpf) where
  -- What the counters of a key gain from counts of the kernel.
  pub record Gains (k : ConnKey) (v : Stats) (m m1 : Counters C) : Type 0 where
    pub successful :
        reading C m1.connections (conn_label successful ∷ labels_of k)
        ≡ reading C m.connections (conn_label successful ∷ labels_of k) + v.0
    pub rejected :
        reading C m1.connections (conn_label rejected ∷ labels_of k)
        ≡ reading C m.connections (conn_label rejected ∷ labels_of k) + v.1
    pub rejected_by_client :
        reading C m1.connections (conn_label rejected_by_client ∷ labels_of k)
        ≡ reading C m.connections (conn_label rejected_by_client ∷ labels_of k)
    pub active :
        reading C m1.seconds (label active ∷ labels_of k)
        ≡ reading C m.seconds (label active ∷ labels_of k) + flag (ltb 0 (v.0 + v.1))
    pub active_failed :
        reading C m1.seconds (label active_failed ∷ labels_of k)
        ≡ reading C m.seconds (label active_failed ∷ labels_of k) + flag (ltb 0 v.1)

  -- What `Apply` exports after a tick.
  pub record Exports (l' : Locals) (w : Kernel b) (r : Report) (x : Exported C f) : Type 0 where
    pub fd : ℕ
    pub is_slot : found (b.outer.lookup w.stats_map (l'.current_ticker_clock % 20)) ≡ some fd
    pub stats : GoMap ConnKey Stats
    pub collected : collect_stats (b.inner.iterate (w.inner_maps fd)).0 [] ≡ ok stats
    pub after : Exported C f
    pub returns : receive_all C f (received r.incs) x ≡ ok after
    pub gains :
        (k : ConnKey) → Gains k (get_or ConnKey-discrete stats k (0, 0)) x.counters after.counters

  abbrev of_conn : Exported C f → ConnKind → ConnKey → ℕ
  of_conn x kind k = reading C x.counters.connections (conn_label kind ∷ labels_of k)

  abbrev of_seconds : Exported C f → Kind → ConnKey → ℕ
  of_seconds x kind k = reading C x.counters.seconds (label kind ∷ labels_of k)

  tick_total :
      (env : Env) (l l' : Locals) (w : Kernel b) (r : Report) (t : TickReport b env l l' w r)
      → Ranges env
      → AllStats IsExact t.stats
      → (field : Inc → ℕ) (F : Stats → ℕ) (k : ConnKey) → F (0, 0) ≡ 0
      → ((v : Stats) (inc : Inc) → Says v inc → field inc ≡ F v)
      → total_of field (labels_of k) (received r.incs)
        ≡ F (get_or ConnKey-discrete t.stats k (0, 0))
  tick_total env l l' w r t ranges all field F k zeroed says =
      let entries = (b.inner.iterate (w.inner_maps t.fd)).0 in
      let is_map = collect_stats-IsMap entries [] t.stats tt t.collected in
      ap (λ incs. total_of field (labels_of k) (received incs)) t.incs
      ∙ total_of-counts l.previous_failed_second t.stats (env.order (keys t.stats))
          (ranges (keys t.stats)) is_map all field F k zeroed (λ v. says v _)

  -- Under a runtime that ranges over each key of a map once, with fewer than 2 ^ 53 connections of
  -- each key in the slot of a tick that reports, on valid counters and a consistent histogram,
  -- while every counter stays below 2 ^ 53, and if the SNI and the addresses of every increment of
  -- the tick are valid UTF-8, Apply does not panic on the increments of the tick; for every key
  -- the counters of successful and of rejected connections then gain the kernel's counts of the
  -- slot, that of rejections by the client gains nothing, that of active seconds gains one if
  -- there was any connection, and that of active-failed seconds one if there was any rejected one.
  pub tick-Exports :
      (env : Env) (l : Locals) (w : Kernel b) (r : Report) (x : Exported C f)
      → Ranges env
      → ((fd : ℕ)
          → found (b.outer.lookup w.stats_map ((tick b env l w).0.current_ticker_clock % 20))
            ≡ some fd
          → All (λ e. IsExact e.1) (b.inner.iterate (w.inner_maps fd)).0)
      → (tick b env l w).2 ≡ ok r
      → Ready C f (received r.incs) x
      → Exports (tick b env l w).0 w r x
  tick-Exports env l w r x ranges exact h ready =
      let t = tick-TickReport b env l w r ranges h in
      let entries = (b.inner.iterate (w.inner_maps t.fd)).0 in
      let all = collect_stats-AllStats IsExact entries t.stats (exact t.fd t.is_slot) t.collected in
      let a = receive_all-Totalled C f (received r.incs) x ready in
      let sum_of = tick_total env l (tick b env l w).0 w r t ranges all in
      record {
        fd = t.fd;
        is_slot = t.is_slot;
        stats = t.stats;
        collected = t.collected;
        after = a.after;
        returns = a.returns;
        gains = λ k. record {
          successful =
              a.connections_at successful (labels_of k)
              ∙ ap (λ n. of_conn x successful k + n)
                  (sum_of (conn_amount successful) (λ v. v.0) k refl
                    (λ v inc says. says.successful));
          rejected =
              a.connections_at rejected (labels_of k)
              ∙ ap (λ n. of_conn x rejected k + n)
                  (sum_of (conn_amount rejected) (λ v. v.1) k refl (λ v inc says. says.rejected));
          rejected_by_client =
              a.connections_at rejected_by_client (labels_of k)
              ∙ ap (λ n. of_conn x rejected_by_client k + n)
                  (sum_of (conn_amount rejected_by_client) (λ v. 0) k refl
                    (λ v inc says. says.by_client))
              ∙ omega arith;
          active =
              a.seconds_at active (labels_of k)
              ∙ ap (λ n. of_seconds x active k + n)
                  (sum_of (amount active) (λ v. flag (ltb 0 (v.0 + v.1))) k refl
                    (λ v inc says. says.active));
          active_failed =
              a.seconds_at active_failed (labels_of k)
              ∙ ap (λ n. of_seconds x active_failed k + n)
                  (sum_of (amount active_failed) (λ v. flag (ltb 0 v.1)) k refl
                    (λ v inc says. says.active_failed));
        };
      }
