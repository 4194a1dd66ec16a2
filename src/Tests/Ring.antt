-- ===== src/Tests/Ring.antt =====
-- A cycle of ticks on a kernel that wrote one batch of counts at clock 0.
use mathlib.Core.List.Perm
use connectivity_exporter.Prelude.{
  ℕ, zero, suc, ◌+◌, ◌^◌, ◌<◌, ◌≡◌, refl, sym, ap, ◌∙◌, arith, ite, List, [], ◌∷◌, ◌++◌, Option,
  none, some, length, map, ℕ_discrete, All,
}
use connectivity_exporter.Prelude.GoMap.{GoMap, keys}
use connectivity_exporter.Prelude.GoString.{GoString, bytes, GoString-discrete}
use connectivity_exporter.Prelude.Results.{ok, external, value}
use connectivity_exporter.Packet.Connection.{ConnKey}
use connectivity_exporter.Packet.Ebpf.{BpfArray, Bpf, Kernel, TupleKey-discrete, Stats}
use connectivity_exporter.Packet.Tracker.{Env, Locals, Report, init_locals, tick, collect_stats}
use connectivity_exporter.Packet.Tracker.Branches.{next_slot}
use connectivity_exporter.Packet.Tracker.Reports.{Ranges, fresh_verdict}
use connectivity_exporter.Packet.Tracker.Progress.{HasAddresses, tick-reports}
use connectivity_exporter.Packet.Slots.{NewMap}
use connectivity_exporter.Packet.Ring.{IsRing, Writes, Rounds}
use connectivity_exporter.Packet.Ring.Pops.{Pops, tick-Pops, tick-Shifts}
use connectivity_exporter.Packet.Ring.Delivery.{Cycle, Cycle-Reports}
use connectivity_exporter.Packet.Tracker.Ring.{tick-NextSlot}
use connectivity_exporter.Tests.Models.{array_of, map_of, get-none, reply_of, found-reply_of}

-- A map by a function, whose iteration always fails.
abbrev outer_map : BpfArray ℕ
outer_map = record {
  Map = ℕ → Option ℕ;
  lookup = λ m k. reply_of (m k);
  put = λ m k v. (λ j. ite (ℕ_discrete k j) (some v) (m j), none);
  iterate = λ m. ([], some (external 0));
  lookup-put = λ m k j v e.
      found-reply_of _ ∙ ap (λ o. ite (ℕ_discrete k j) (some v) o) (sym (found-reply_of _));
  get-iterate = λ m k e. cc;
  iterate-IsMap = λ m e. tt;
}

abbrev pub ring_bpf : Bpf
ring_bpf = record {
  connection = map_of TupleKey-discrete;
  outer = outer_map;
  inner = map_of GoString-discrete;
  clock = array_of ℕ;
}

abbrev pub env : Env
env = record { order = λ ks. ks; now_at = λ k. 5; now_end = 6 }

pub env-Ranges : Ranges env
env-Ranges ks = Perm.refl ks

abbrev pub stats_key : GoString
stats_key = 10 ∷ 0 ∷ 0 ∷ 1 ∷ 10 ∷ 0 ∷ 0 ∷ 2 ∷ bytes "a" ++ 0 ∷ []

abbrev pub slots : ℕ → ℕ
slots i = i + 100

abbrev pub batch_at : (j : ℕ) → Dec (◌≡◌ {A = ℕ} 100 j) → ring_bpf.inner.Map
batch_at j d = ite d ((stats_key, (2, 1)) ∷ [], (get-none GoString-discrete stats_key, tt)) ([], tt)

abbrev pub inner_maps : ℕ → ring_bpf.inner.Map
inner_maps j = batch_at j (ℕ_discrete 100 j)

-- The kernel before each of the ticks.
abbrev pub kernel : Kernel ring_bpf
kernel = record {
  connection_map = ([], tt);
  stats_map = λ i. some (slots i);
  inner_maps = inner_maps;
  ticker_clock_map = ([], tt);
}

pub kernel-IsRing : IsRing ring_bpf slots kernel
kernel-IsRing = record { each = λ i lt. refl; apart = λ i j hi hj ne e. ne (omega arith) }

complete : (fd : ℕ) → (ring_bpf.inner.iterate (inner_maps fd)).1 ≡ none
complete fd = refl

addresses_by :
    (fd : ℕ) (d : Dec (◌≡◌ {A = ℕ} 100 fd))
    → All (λ e. HasAddresses e.0) (ring_bpf.inner.iterate (batch_at fd d)).0
addresses_by fd (yes p) = (omega arith, tt)
addresses_by fd (no p) = tt

pub addresses : (fd : ℕ) → All (λ e. HasAddresses e.0) (ring_bpf.inner.iterate (inner_maps fd)).0
addresses fd = addresses_by fd (ℕ_discrete 100 fd)

pub tick_ok : (l : Locals) → (r : Report) × ((tick ring_bpf env l kernel).2 ≡ ok r)
tick_ok l =
    tick-reports ring_bpf env l kernel (slots (next_slot ring_bpf l)) refl refl refl
      (complete (slots (next_slot ring_bpf l))) (addresses (slots (next_slot ring_bpf l)))

pub some-injective : {a c : ℕ} → some a ≡ some c → a ≡ c
some-injective h = cc

unfoldable pub after : Locals → Kernel ring_bpf
after l = (tick ring_bpf env l kernel).1

pub after-Writes :
    (l : Locals)
    → l.current_ticker_clock + 1 < 2 ^ 64
    → Writes ring_bpf slots (tick ring_bpf env l kernel).0.current_ticker_clock (after l) kernel
unfolding after
after-Writes l small =
    let (r, h) = tick_ok l in
    let n = tick-NextSlot ring_bpf env l kernel r (omega arith) h in
    record {
      same_slots = sym n.same_slots;
      others = λ j ne. sym (n.others j (λ e. ne (some-injective n.is_slot ∙ e)));
    }

-- `n` rounds from some locals, each on the kernel above.
record Ran (n : ℕ) (l : Locals) : Type 0 where
  reports : List Report
  locals : Locals
  rounds : Rounds ring_bpf slots l kernel reports locals kernel
  counted : length reports ≡ n
  clock : locals.current_ticker_clock ≡ l.current_ticker_clock + n

ran : (n : ℕ) (l : Locals) → l.current_ticker_clock + n + 1 < 2 ^ 64 → Ran n l
unfolding after
ran zero l small = record {
  reports = [];
  locals = l;
  rounds = Rounds.here;
  counted = refl;
  clock = omega arith;
}
ran (suc n) l small =
    let before = ran n l (omega arith) in
    let (r, h) = tick_ok before.locals in
    let room : before.locals.current_ticker_clock + 1 < 2 ^ 64 = omega (arith, before.clock) in
    let s = tick-Shifts ring_bpf slots env before.locals kernel r kernel-IsRing room h in
    record {
      reports = r ∷ before.reports;
      locals = (tick ring_bpf env before.locals kernel).0;
      rounds =
          Rounds.reporting before.rounds env r
            (ap (λ o. ((tick ring_bpf env before.locals kernel).0, after before.locals, o)) h)
            (after-Writes before.locals room);
      counted = ap suc before.counted;
      clock = omega (arith, s.clock, before.clock);
    }

-- The locals after the first tick, after seventeen more, and after the last.
first_locals : Locals
first_locals = (tick ring_bpf env init_locals kernel).0

first_clock : first_locals.current_ticker_clock ≡ 1
unfolding first_locals
first_clock =
    let (r, h) = tick_ok init_locals in
    let s = tick-Shifts ring_bpf slots env init_locals kernel r kernel-IsRing (omega arith) h in
    omega (arith, s.clock)

middle : Ran 17 first_locals
middle = ran 17 first_locals (omega (arith, first_clock))

middle_clock : middle.locals.current_ticker_clock ≡ 18
middle_clock = omega (arith, middle.clock, first_clock)

last_locals : Locals
last_locals = (tick ring_bpf env middle.locals kernel).0

cycle : Cycle ring_bpf slots init_locals kernel last_locals kernel
unfolding first_locals last_locals after
cycle =
    let (r1, h1) = tick_ok init_locals in
    let (r2, h2) = tick_ok middle.locals in
    record {
      l1 = first_locals;
      l2 = middle.locals;
      w1 = after init_locals;
      w2 = kernel;
      w3 = kernel;
      w4 = after middle.locals;
      first_env = env;
      first_report = r1;
      first = ap (λ o. (first_locals, after init_locals, o)) h1;
      first_writes = after-Writes init_locals (omega arith);
      reports = middle.reports;
      seventeen = middle.counted;
      rounds = middle.rounds;
      last_env = env;
      last_report = r2;
      last = ap (λ o. (last_locals, after middle.locals, o)) h2;
      last_writes = after-Writes middle.locals (omega (arith, middle_clock));
    }

Cycle-Reports_example :
    (stats : GoMap ConnKey Stats) × (collect_stats
        (ring_bpf.inner.iterate (kernel.inner_maps (slots 0))).0
        []
      ≡ ok stats)
    × ((tick_ok last_locals).0.incs
        ≡ map
            (λ k. (fresh_verdict last_locals.previous_failed_second stats k).0)
            (env.order (keys stats)))
Cycle-Reports_example =
    Cycle-Reports ring_bpf slots init_locals last_locals kernel kernel env (tick_ok last_locals).0
      kernel-IsRing (omega arith) cycle env-Ranges (tick_ok last_locals).1

tick-Pops_example :
    Pops ring_bpf slots env init_locals
      (tick ring_bpf env init_locals kernel).0
      kernel
      (tick ring_bpf env init_locals kernel).1
      (tick_ok init_locals).0
tick-Pops_example =
    tick-Pops ring_bpf slots env init_locals kernel (tick_ok init_locals).0 kernel-IsRing
      (omega arith) env-Ranges (tick_ok init_locals).1

abbrev pub new_map : NewMap
new_map clock = value (clock + 100)

abbrev pub unset : Kernel ring_bpf
unset = record kernel { stats_map = λ i. none }
