-- ===== src/Packet/Tracker/Carry.antt =====
-- Failed seconds that are carried over from tick to tick.
use mathlib.Core.List.{Mem, mem-cons}
use mathlib.Core.List.Perm
use mathlib.Core.Logic.Or
use connectivity_exporter.Prelude.{
  ℕ, ◌+◌, ◌%◌, ◌<◌, ◌≡◌, refl, sym, subst, arith, Bool, false, List, [], ◌∷◌, Option, none, some,
  map, All,
}
use connectivity_exporter.Prelude.GoMap.{get, keys}
use connectivity_exporter.Prelude.Results.{ok, found}
use connectivity_exporter.Prelude.Float64.{◌+f◌, +f_exact}
use connectivity_exporter.Metrics.Inc.{Inc}
use connectivity_exporter.Packet.Connection.{ConnKey, ConnKey-discrete}
use connectivity_exporter.Packet.Account.{account_for_connections, scan_connections}
use connectivity_exporter.Packet.Ebpf.{Bpf, Kernel, Stats}
use connectivity_exporter.Packet.Tracker.Collected.{AllStats, collect_stats-AllStats}
use connectivity_exporter.Packet.Tracker.Judged.{judged}
use connectivity_exporter.Packet.Tracker.Keys.{not-mem-of_NotIn, Perm-NotIn, NotIn-of_get}
use connectivity_exporter.Packet.Tracker.Reports.{
  Ranges, fresh_verdict, TickReport, tick-TickReport,
}
use connectivity_exporter.Packet.Tracker.{Env, Locals, Report, get_or, tick}

-- A count of the kernel: some connection succeeded or failed.
abbrev pub IsPositive : Stats → Type 0
IsPositive v = 0 < v.0 + v.1

-- The verdict with no stale connection and a positive count: active, and failed only if failed now.
abbrev pub NoCarry : Inc → Type 0
NoCarry inc = (inc.active_seconds ≡ 1) × (inc.failed_seconds ≡ inc.active_failed_seconds)

one_exact : 0 +f 1 ≡ 1
one_exact = +f_exact 0 1 (omega arith)

judged-NoCarry :
    (k : ConnKey) (previous : Bool) (v : Stats) → IsPositive v → NoCarry (judged k previous [] v).0
unfolding account_for_connections scan_connections
judged-NoCarry k previous v pos = ground (arith, one_exact)

abbrev or_zero_stats : Option Stats → Stats
or_zero_stats o = elim o [ none ↦ (0, 0) | some v ↦ v ]

All-map {κ} :
    (P : Inc → Type κ) (f : ConnKey → Inc) (ks : List ConnKey)
    → ((k : ConnKey) → Mem k ks → P (f k))
    → All P (map f ks)
All-map P f [] h = tt
All-map P f (k ∷ ks) h =
    (h k (mem-cons.1 (Or.inl refl)), All-map P f ks (λ j m. h j (mem-cons.1 (Or.inr m))))

-- Under a runtime that ranges over each key once, while every count that the kernel holds in the
-- slot of the tick is positive, each increment of a tick that reports is of an active second, and
-- counts a failed second exactly if it counts an active-failed one.
pub tick-NoCarry :
    (b : Bpf) (env : Env) (l : Locals) (w : Kernel b) (r : Report)
    → Ranges env
    → ((fd : ℕ)
        → found (b.outer.lookup w.stats_map ((tick b env l w).0.current_ticker_clock % 20))
          ≡ some fd
        → All (λ e. IsPositive e.1) (b.inner.iterate (w.inner_maps fd)).0)
    → (tick b env l w).2 ≡ ok r
    → All NoCarry r.incs
unfolding AllStats
tick-NoCarry b env l w r ranges positive h =
    rw t.incs (All-map NoCarry _ (env.order (keys t.stats)) seen)
  where
    t : TickReport b env l (tick b env l w).0 w r
    t = tick-TickReport b env l w r ranges h

    all : AllStats IsPositive t.stats
    all =
        collect_stats-AllStats IsPositive (b.inner.iterate (w.inner_maps t.fd)).0 t.stats
          (positive t.fd t.is_slot) t.collected

    seen :
        (k : ConnKey)
        → Mem k (env.order (keys t.stats))
        → NoCarry (fresh_verdict l.previous_failed_second t.stats k).0
    seen k m = by_value (get ConnKey-discrete t.stats k) refl
      where
        before : Bool
        before = get_or ConnKey-discrete l.previous_failed_second k false

        by_value :
            (o : Option Stats)
            → get ConnKey-discrete t.stats k ≡ o
            → NoCarry (fresh_verdict l.previous_failed_second t.stats k).0
        by_value none q = absurd (
            not-mem-of_NotIn k (env.order (keys t.stats))
              (Perm-NotIn k (Perm.symm (ranges (keys t.stats))) (NotIn-of_get t.stats k q)) m)
        by_value (some v) q =
            subst (λ o. NoCarry (judged k before [] (or_zero_stats o)).0) (sym q)
              (judged-NoCarry k before v (all k v q))
