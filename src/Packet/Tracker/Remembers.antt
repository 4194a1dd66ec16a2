-- ===== src/Packet/Tracker/Remembers.antt =====
-- The locals of `TrackConnections` from tick to tick, in connectivity-exporter/packet/packet.go.
use mathlib.Core.List.{Mem}
use mathlib.Core.List.Perm
use connectivity_exporter.Prelude.{
  ℕ, ◌%◌, ◌≡◌, sym, subst, ap, ◌∙◌, Bool, false, List, [], Option, none, some, if◌then◌else◌,
}
use connectivity_exporter.Prelude.GoMap.{GoMap, get, keys, IsMap}
use connectivity_exporter.Prelude.GoString.{GoString, GoString-discrete}
use connectivity_exporter.Prelude.Results.{ok, found}
use connectivity_exporter.Metrics.Inc.{Inc}
use connectivity_exporter.Packet.Account.{State, delete_expired_snis}
use connectivity_exporter.Packet.Account.Expiry.{
  is_expired, contains, delete_expired_snis_lem, delete_expired_snis-IsMap,
}
use connectivity_exporter.Packet.Connection.{ConnKey, ConnKey-discrete}
use connectivity_exporter.Packet.Ebpf.{Bpf, Kernel, Stats}
use connectivity_exporter.Packet.Tracker.Branches.{
  without_old, next_slot, reading, old_of, tick-TickOk, finish_tick_ok,
}
use connectivity_exporter.Packet.Tracker.Judged.{judged}
use connectivity_exporter.Packet.Tracker.Keys.{
  Perm-Distinct, IsMap-Distinct, keys-stats_keys, collect_stats-IsMap,
}
use connectivity_exporter.Packet.Tracker.Remembered.{
  or_else, first_time, get-account_keys, account_keys-IsMap, seen-account_keys,
}
use connectivity_exporter.Packet.Tracker.Reports.{
  Ranges, fresh_verdict, no_connections_lem, FinishOk, finish_tick-FinishOk,
}
use connectivity_exporter.Packet.Tracker.Ring.{get_oldest-Cleaned}
use connectivity_exporter.Packet.Tracker.{
  Env, Locals, Report, tick, collect_stats, account_keys, add_stats_keys, no_connections, get_or,
}

-- The maps of the goroutine hold each key once.
pub record IsWellFormed (l : Locals) : Type 0 where
  pub snis : IsMap GoString-discrete l.state.snis
  pub previous : IsMap ConnKey-discrete l.previous_failed_second

module _ (b : Bpf) where
  -- The time recorded for an SNI when the keys of a tick have been judged.
  abbrev pub recorded : Env → Locals → GoMap ConnKey Stats → GoString → Option ℕ
  recorded env l stats sni =
      or_else (get GoString-discrete l.state.snis sni)
        (first_time env.now_at (env.order (keys stats)) sni)

  -- What a tick that reports leaves in the locals, and which SNIs it deletes.
  pub record Remembers (env : Env) (l l' : Locals) (w : Kernel b) (r : Report) : Type 0 where
    pub fd : ℕ
    pub is_slot : found (b.outer.lookup w.stats_map (l'.current_ticker_clock % 20)) ≡ some fd
    pub stats : GoMap ConnKey Stats
    pub collected : collect_stats (b.inner.iterate (w.inner_maps fd)).0 [] ≡ ok stats
    pub snis :
        (sni : GoString)
        → get GoString-discrete l'.state.snis sni ≡ (
            if is_expired env.now_end (recorded env l stats sni)
            then none
            else recorded env l stats sni)
    pub deleted :
        (sni : GoString)
        → contains r.deleted sni ≡ is_expired env.now_end (recorded env l stats sni)
    pub previous :
        (k : ConnKey)
        → Mem k (keys stats)
        → get ConnKey-discrete l'.previous_failed_second k
          ≡ some (fresh_verdict l.previous_failed_second stats k).1
    pub well_formed : IsWellFormed l'

  -- The keys of a tick, judged in the order of the runtime.
  judged_all : Env → Locals → GoMap ConnKey Stats → State × GoMap ConnKey Bool × List Inc
  judged_all env l stats =
      account_keys env.now_at stats (no_connections (keys (add_stats_keys stats [])))
        (env.order (keys stats)) (l.state, l.previous_failed_second)

  record Finished (env : Env) (l l' : Locals) (stats : GoMap ConnKey Stats) (r : Report)
      : Type 0 where
    state : l'.state ≡ (delete_expired_snis env.now_end (judged_all env l stats).0).0
    deleted : r.deleted ≡ (delete_expired_snis env.now_end (judged_all env l stats).0).1
    previous : l'.previous_failed_second ≡ (judged_all env l stats).1

  FinishOk-Finished :
      (env : Env) (l l' : Locals) (stats : GoMap ConnKey Stats) (r : Report)
      → IsMap ConnKey-discrete stats
      → FinishOk b env l stats r l'
      → Finished env l l' stats r
  unfolding judged_all
  FinishOk-Finished env l l' stats r is_map f =
      let ks = keys-stats_keys stats is_map in
      let all = λ (js : List ConnKey).
        account_keys env.now_at stats (no_connections (keys (add_stats_keys stats [])))
          (env.order js) (l.state, l.previous_failed_second) in
      record {
        state = f.state ∙ ap (λ js. (delete_expired_snis env.now_end (all js).0).0) ks;
        deleted = f.deleted ∙ ap (λ js. (delete_expired_snis env.now_end (all js).0).1) ks;
        previous = f.previous ∙ ap (λ js. (all js).1) ks;
      }

  module _ (env : Env) (l : Locals) (stats : GoMap ConnKey Stats) (ranges : Ranges env)
      (is_map : IsMap ConnKey-discrete stats) (wf : IsWellFormed l) where
    judged_all-IsMap :
        IsMap GoString-discrete (judged_all env l stats).0.snis
        × IsMap ConnKey-discrete (judged_all env l stats).1
    unfolding judged_all
    judged_all-IsMap =
        account_keys-IsMap env.now_at stats _ (env.order (keys stats)) l.state
          l.previous_failed_second wf.snis wf.previous

    judged_all-recorded :
        (sni : GoString)
        → get GoString-discrete (judged_all env l stats).0.snis sni ≡ recorded env l stats sni
    unfolding judged_all
    judged_all-recorded sni =
        get-account_keys env.now_at stats _ (env.order (keys stats)) l.state
          l.previous_failed_second sni

    judged_all-previous :
        (k : ConnKey)
        → Mem k (keys stats)
        → get ConnKey-discrete (judged_all env l stats).1 k
          ≡ some (fresh_verdict l.previous_failed_second stats k).1
    unfolding judged_all
    judged_all-previous k m =
        let p = ranges (keys stats) in
        seen-account_keys env.now_at stats _ (env.order (keys stats)) k l.state
          l.previous_failed_second (Perm-Distinct (Perm.symm p) (IsMap-Distinct stats is_map))
          (Perm.subset (Perm.symm p) k m)
        ∙ ap
            (λ vs.
              some
                (judged k (get_or ConnKey-discrete l.previous_failed_second k false) vs
                  (get_or ConnKey-discrete stats k (0, 0))).1)
            (no_connections_lem (keys (add_stats_keys stats [])) k)

    Finished-Remembers :
        (l' : Locals) (w : Kernel b) (r : Report) (fd : ℕ)
        → found (b.outer.lookup w.stats_map (l'.current_ticker_clock % 20)) ≡ some fd
        → collect_stats (b.inner.iterate (w.inner_maps fd)).0 [] ≡ ok stats
        → Finished env l l' stats r
        → Remembers env l l' w r
    Finished-Remembers l' w r fd slot collected f =
        let (snis, previous) = judged_all-IsMap in
        let expiry = λ (sni : GoString).
          delete_expired_snis_lem env.now_end (judged_all env l stats).0 sni snis in
        record {
          fd = fd;
          is_slot = slot;
          stats = stats;
          collected = collected;
          snis = λ sni.
              ap (λ s. get GoString-discrete s.snis sni) f.state
              ∙ (expiry sni).0
              ∙ ap (λ o. if is_expired env.now_end o then none else o) (judged_all-recorded sni);
          deleted = λ sni.
              ap (λ names. contains names sni) f.deleted
              ∙ (expiry sni).1
              ∙ ap (is_expired env.now_end) (judged_all-recorded sni);
          previous = λ k m. ap (λ p. get ConnKey-discrete p k) f.previous ∙ judged_all-previous k m;
          well_formed = record {
            snis =
                subst (λ s. IsMap GoString-discrete s.snis) (sym f.state)
                  (delete_expired_snis-IsMap env.now_end (judged_all env l stats).0 snis);
            previous = subst (IsMap ConnKey-discrete) (sym f.previous) previous;
          };
        }

  -- A tick that reports, under a runtime that ranges over each key once and from locals whose maps hold each key once,
  -- records for each SNI the time it had or else the time read for the first key of the slot's statistics with it; it
  -- forgets, and hands to DeleteMetrics, exactly the SNIs whose recorded time is more than fifteen minutes before the
  -- end of the tick, and keeps the time of the others; it keeps for each key of the statistics its verdict as the
  -- previous second; and its maps still hold each key once.
  pub tick-Remembers :
      (env : Env) (l : Locals) (w : Kernel b) (r : Report)
      → Ranges env
      → IsWellFormed l
      → (tick b env l w).2 ≡ ok r
      → Remembers env l (tick b env l w).0 w r
  tick-Remembers env l w r ranges wf h =
      let t = tick-TickOk b env l w r h in
      let (fd, c) = get_oldest-Cleaned b (without_old b l w) (next_slot b l) t.stats t.read in
      let h1 = rw t.rest at h in
      let f = finish_tick-FinishOk b env l (reading b l w).0 (old_of b l w) t.stats r h1 in
      let clock = (finish_tick_ok b env l (reading b l w).0 (old_of b l w) t.stats r h1).0 in
      let is_map =
        collect_stats-IsMap (b.inner.iterate (w.inner_maps fd)).0 [] t.stats tt c.collected in
      rw t.rest (
        Finished-Remembers env l t.stats ranges is_map wf _ w r fd (rw clock c.is_slot) c.collected
          (FinishOk-Finished env l _ t.stats r is_map f))
