-- ===== src/Packet/Tracker/Reports.antt =====
-- What a tick of `TrackConnections` sends.
use mathlib.Core.List.{Perm}
use mathlib.Core.List.Perm
use connectivity_exporter.Prelude.{
  ℕ, ◌%◌, ◌≡◌, refl, ap, fun_ext, ◌∙◌, arith, Bool, false, List, [], ◌∷◌, none, some, map,
}
use connectivity_exporter.Prelude.GoMap.{GoMap, get, get-put, keys}
use connectivity_exporter.Prelude.Results.{ok, found}
use connectivity_exporter.Metrics.Inc.{Inc}
use connectivity_exporter.Packet.Connection.{ConnKey, ConnKey-discrete, TupleData}
use connectivity_exporter.Packet.Account.{delete_expired_snis}
use connectivity_exporter.Packet.Ebpf.{Bpf, Kernel, Stats, TupleKey}
use connectivity_exporter.Packet.Tracker.Keys.{
  Perm-Distinct, Perm-NotIn, NotIn-of_get, IsMap-Distinct, keys-stats_keys, collect_stats-IsMap,
}
use connectivity_exporter.Packet.Tracker.Ring.{get_oldest-Cleaned}
use connectivity_exporter.Packet.Tracker.Stale.{finish_tick_panic}
use connectivity_exporter.Packet.Tracker.Branches.{
  finish_tick_ok, without_old, next_slot, reading, old_of, tick-TickOk,
}
use connectivity_exporter.Packet.Tracker.{
  Env, Locals, finish_tick, group_stale, add_old_keys, add_stale, collect_stats, tick, Report,
  get_or, account_keys, add_stats_keys, no_connections,
}
use connectivity_exporter.Packet.Tracker.Judged.{judged, account_keys_lem, previous-account_keys}

pub no_connections_lem :
    (ks : List ConnKey) (k : ConnKey) → get_or ConnKey-discrete (no_connections ks) k [] ≡ []
unfolding no_connections get
no_connections_lem [] k = refl
no_connections_lem (j ∷ ks) k =
    ground (arith, no_connections_lem ks k, get-put ConnKey-discrete (no_connections ks) j k [])

-- The runtime ranges over each key of a map once.
abbrev pub Ranges : Env → Type 0
Ranges env = (ks : List ConnKey) → Perm (env.order ks) ks

-- The verdict on a key with no stale connection.
abbrev pub fresh_verdict : GoMap ConnKey Bool → GoMap ConnKey Stats → ConnKey → Inc × Bool
fresh_verdict previous stats k =
    judged k (get_or ConnKey-discrete previous k false) [] (get_or ConnKey-discrete stats k (0, 0))

module _ (b : Bpf) where
  -- What the last part of a tick reports; it does so only with no old connection.
  pub record FinishOk (env : Env) (l : Locals) (stats : GoMap ConnKey Stats) (r : Report)
      (l' : Locals) : Type 0 where
    pub incs :
        r.incs
        ≡ (account_keys env.now_at stats
            (no_connections (keys (add_stats_keys stats [])))
            (env.order (keys (add_stats_keys stats [])))
            (l.state, l.previous_failed_second)).2
    pub previous :
        l'.previous_failed_second
        ≡ (account_keys env.now_at stats
            (no_connections (keys (add_stats_keys stats [])))
            (env.order (keys (add_stats_keys stats [])))
            (l.state, l.previous_failed_second)).1
    pub state :
        l'.state
        ≡ (delete_expired_snis env.now_end
            (account_keys env.now_at stats
              (no_connections (keys (add_stats_keys stats [])))
              (env.order (keys (add_stats_keys stats [])))
              (l.state, l.previous_failed_second)).0).0
    pub deleted :
        r.deleted
        ≡ (delete_expired_snis env.now_end
            (account_keys env.now_at stats
              (no_connections (keys (add_stats_keys stats [])))
              (env.order (keys (add_stats_keys stats [])))
              (l.state, l.previous_failed_second)).0).1

  pub finish_tick-FinishOk :
      (env : Env) (l : Locals) (w : Kernel b) (old : GoMap TupleKey TupleData)
      (stats : GoMap ConnKey Stats) (r : Report)
      → (finish_tick b env l w old stats).2 ≡ ok r
      → FinishOk env l stats r (finish_tick b env l w old stats).0
  unfolding finish_tick group_stale add_old_keys add_stale
  finish_tick-FinishOk env l w [] stats r h = ground arith
  finish_tick-FinishOk env l w ((k, v) ∷ old) stats r h =
      absurd (cc (finish_tick_panic b env l w ((k, v) ∷ old) stats (omega arith)))

  -- The slot that was read, the increments judged on it, and the keys that are not there.
  pub record TickReport (env : Env) (l l' : Locals) (w : Kernel b) (r : Report) : Type 0 where
    pub fd : ℕ
    pub is_slot : found (b.outer.lookup w.stats_map (l'.current_ticker_clock % 20)) ≡ some fd
    pub stats : GoMap ConnKey Stats
    pub collected : collect_stats (b.inner.iterate (w.inner_maps fd)).0 [] ≡ ok stats
    pub incs :
        r.incs
        ≡ map (λ k. (fresh_verdict l.previous_failed_second stats k).0) (env.order (keys stats))
    pub unseen :
        (j : ConnKey)
        → get ConnKey-discrete stats j ≡ none
        → get ConnKey-discrete l'.previous_failed_second j
          ≡ get ConnKey-discrete l.previous_failed_second j

-- A tick that reports, under a runtime that ranges over each key once, sends exactly one increment for each key of the
-- statistics in the slot of its new clock, judged on those counts and the key's previous second alone; a key with no
-- statistics there gets no increment, and its previous second stays as it was.
pub tick-TickReport :
    (b : Bpf) (env : Env) (l : Locals) (w : Kernel b) (r : Report)
    → Ranges env
    → (tick b env l w).2 ≡ ok r
    → TickReport b env l (tick b env l w).0 w r
tick-TickReport b env l w r ranges h =
    let t = tick-TickOk b env l w r h in
    let stats = t.stats in
    let (fd, c) = get_oldest-Cleaned b (without_old b l w) (next_slot b l) stats t.read in
    let h1 = rw t.rest at h in
    let f = finish_tick-FinishOk b env l (reading b l w).0 (old_of b l w) stats r h1 in
    let (clock, same, maps) = finish_tick_ok b env l (reading b l w).0 (old_of b l w) stats r h1 in
    let is_map =
      collect_stats-IsMap (b.inner.iterate (w.inner_maps fd)).0 [] stats tt c.collected in
    let ks = keys-stats_keys stats is_map in
    let p = ranges (keys stats) in
    let stale = no_connections (keys (add_stats_keys stats [])) in
    rw t.rest (record {
      fd = fd;
      is_slot = rw clock c.is_slot;
      stats = stats;
      collected = c.collected;
      incs =
          f.incs
          ∙ ap
              (λ js.
                (account_keys env.now_at stats stale (env.order js)
                  (l.state, l.previous_failed_second)).2)
              ks
          ∙ account_keys_lem env.now_at stats stale (env.order (keys stats)) l.state
              l.previous_failed_second (Perm-Distinct (Perm.symm p) (IsMap-Distinct stats is_map))
          ∙ ap (λ g. map g (env.order (keys stats)))
              (fun_ext (λ k.
                ap
                  (λ vs.
                    (judged k (get_or ConnKey-discrete l.previous_failed_second k false) vs
                      (get_or ConnKey-discrete stats k (0, 0))).0)
                  (no_connections_lem (keys (add_stats_keys stats [])) k)));
      unseen = λ j n.
          ap (λ m. get ConnKey-discrete m j) f.previous
          ∙ ap
              (λ js.
                get ConnKey-discrete
                  (account_keys env.now_at stats stale (env.order js)
                    (l.state, l.previous_failed_second)).1
                  j)
              ks
          ∙ previous-account_keys env.now_at stats stale (env.order (keys stats)) j l.state
              l.previous_failed_second (Perm-NotIn j (Perm.symm p) (NotIn-of_get stats j n));
    })
