-- ===== src/Tests/Conservation.antt =====
-- A tick that reports a batch of counts, and a kernel that then writes it again.
use connectivity_exporter.Packet.Tracker.Reports.{fresh_verdict, tick-TickReport}
use connectivity_exporter.Packet.Account.{account_for_connections, scan_connections, judge}
use connectivity_exporter.Metrics.Loop.Totals.{all_have_text}
use connectivity_exporter.Prelude.{
  ◌∙◌, sym, ℕ, ◌+◌, ◌%◌, ◌≤◌, ◌<◌, ◌≡◌, refl, ap, ap₂, arith, List, [], ◌∷◌, none, true, Bool, ◌⊎◌,
  inl, inr, subst, map, ℕ_discrete,
}
use connectivity_exporter.Prelude.GoMap.{get, put, GoMap, keys}
use connectivity_exporter.Prelude.GoString.{bytes, GoString}
use connectivity_exporter.Prelude.Results.{ok, ok-injective}
use connectivity_exporter.Metrics.CounterVec.{Labels}
use connectivity_exporter.Metrics.Inc.{Inc}
use connectivity_exporter.Metrics.Apply.Kinds.{
  ConnKind, successful, rejected, rejected_by_client, label, conn_label,
}
use connectivity_exporter.Metrics.Loop.{Exported, receive_all}
use connectivity_exporter.Packet.Bytes.Addresses.{conn_key_of_bytes}
use connectivity_exporter.Packet.Connection.{ConnKey, ConnKey-discrete}
use connectivity_exporter.Packet.Ebpf.{Stats, Kernel}
use connectivity_exporter.Packet.Tracker.{Locals, Report, init_locals, tick, collect_stats, get_or}
use connectivity_exporter.Packet.Ring.{line}
use connectivity_exporter.Packet.Ring.Pops.{tick-Shifts}
use connectivity_exporter.Packet.Ring.Counted.{counts_in, counted, Adds}
use connectivity_exporter.Packet.Ring.Counted.Sums.{sum_below-le}
use connectivity_exporter.Packet.Ring.Counted.Ticks.{counts_in-empty}
use connectivity_exporter.Exporter.{received}
use connectivity_exporter.Exporter.Incs.{labels_of}
use connectivity_exporter.Exporter.Totals.{of_labels, count_of}
use connectivity_exporter.Metrics.Loop.{incs_of}
use connectivity_exporter.Exporter.Conservation.{
  delete_expired, World, Exporting, in_ring, Fits, Conserves,
}
use connectivity_exporter.Exporter.Conservation.Runs.{Exporting-Conserves, Exporting-receives}
use connectivity_exporter.Tests.Models.{vectors, whole_bounds}
use connectivity_exporter.Tests.Ring.{
  ring_bpf, env, env-Ranges, stats_key, slots, batch_at, kernel, kernel-IsRing, tick_ok, after,
  after-Writes,
}
use connectivity_exporter.Tests.Metrics.{
  exported, new_counters-IsValid, seconds_zero, connections_zero,
}

pub complete : (m : ring_bpf.inner.Map) → (ring_bpf.inner.iterate m).1 ≡ none
complete m = refl

-- The tick after clock 19 reads the slot that holds the batch.
abbrev pub locals : Locals
locals = record init_locals { current_ticker_clock = 19 }

abbrev pub world : World vectors whole_bounds ring_bpf
world = record { locals = locals; kernel = kernel; exported = exported }

abbrev ticked : Locals
ticked = (tick ring_bpf env locals kernel).0

abbrev report : Report
report = (tick_ok locals).0

of_labels-le :
    (m : ℕ) (g : ConnKey → ℕ) (key : Labels) → ((k : ConnKey) → g k ≤ m) → of_labels g key ≤ m
of_labels-le m g [] le = omega arith
of_labels-le m g (a ∷ []) le = omega arith
of_labels-le m g (a ∷ c ∷ []) le = omega arith
of_labels-le m g (sni ∷ source ∷ dest ∷ []) le =
    le (record { source_ip = source; dest_ip = dest; sni = sni })
of_labels-le m g (a ∷ c ∷ d ∷ e ∷ key) le = omega arith

abbrev pub IsSmall : Stats → Type 0
IsSmall v = (v.0 ≤ 2) × (v.1 ≤ 2)

single-IsSmall : (key k : ConnKey) → IsSmall (get_or ConnKey-discrete ((key, (2, 1)) ∷ []) k (0, 0))
unfolding get
single-IsSmall key k = ground arith

abbrev pub batch_key : ConnKey
batch_key = record { source_ip = bytes "10.0.0.1"; dest_ip = bytes "10.0.0.2"; sni = bytes "a" }

collected : collect_stats ((stats_key, (2, 1)) ∷ []) [] ≡ ok ((batch_key, (2, 1)) ∷ [])
unfolding collect_stats conn_key_of_bytes put
collected = refl

-- A slot's map is empty or holds the batch.
abbrev pub IsBatch : GoMap GoString Stats → Type 0
IsBatch m = (m ≡ []) ⊎ (m ≡ (stats_key, (2, 1)) ∷ [])

pub kernel-IsBatch : (fd : ℕ) → IsBatch (kernel.inner_maps fd).0
kernel-IsBatch fd = by_slot fd (ℕ_discrete 100 fd)
  where
    by_slot : (j : ℕ) (d : Dec (◌≡◌ {A = ℕ} 100 j)) → IsBatch (batch_at j d).0
    by_slot j (yes p) = inr refl
    by_slot j (no n) = inl refl

SentTexts : GoMap ConnKey Bool → GoMap ConnKey Stats → Type 0
SentTexts previous stats =
    all_have_text vectors (received (map (λ k. (fresh_verdict previous stats k).0) (keys stats)))
    ≡ true

collected_texts :
    (m : GoMap GoString Stats) (previous : GoMap ConnKey Bool) (stats : GoMap ConnKey Stats)
    → IsBatch m
    → collect_stats m [] ≡ ok stats
    → SentTexts previous stats
unfolding SentTexts collect_stats account_for_connections scan_connections judge
collected_texts m previous stats (inl e) c =
    subst (SentTexts previous) (ok-injective (sym (ap (λ t. collect_stats t []) e) ∙ c)) refl
collected_texts m previous stats (inr e) c =
    subst (SentTexts previous) (ok-injective (sym (ap (λ t. collect_stats t []) e ∙ collected) ∙ c))
      refl

-- The labels of the batch are ASCII.
pub report_texts :
    (l : Locals) (w : Kernel ring_bpf) (r : Report)
    → ((fd : ℕ) → IsBatch (w.inner_maps fd).0)
    → (tick ring_bpf env l w).2 ≡ ok r
    → all_have_text vectors (received r.incs) ≡ true
unfolding SentTexts
report_texts l w r batches h =
    let t = tick-TickReport ring_bpf env l w r env-Ranges h in
    ap (λ incs. all_have_text vectors (received incs)) t.incs
    ∙ collected_texts (w.inner_maps t.fd).0 l.previous_failed_second t.stats (batches t.fd)
        t.collected

batch-IsSmall :
    (j : ℕ) (d : Dec (◌≡◌ {A = ℕ} 100 j)) (k : ConnKey)
    → IsSmall (counts_in ring_bpf (batch_at j d) k)
unfolding counts_in collect_stats get
batch-IsSmall j (yes p) k = rw (counts_in, collected) (single-IsSmall batch_key k)
batch-IsSmall j (no n) k = (omega arith, omega arith)

count_of-le : (kind : ConnKind) (v : Stats) → IsSmall v → count_of kind v ≤ 2
count_of-le successful v small = small.0
count_of-le rejected v small = small.1
count_of-le rejected_by_client v small = omega arith

ring-le :
    (kind : ConnKind) (k : ConnKey) → in_ring vectors whole_bounds ring_bpf slots world kind k ≤ 40
unfolding counted line
ring-le kind k =
    sum_below-le 2 20 (λ i. count_of kind (counts_in ring_bpf (line ring_bpf slots kernel 19 i) k))
      (λ i. count_of-le kind _ (batch-IsSmall (slots ((19 + 1 + i) % 20)) _ k))

-- What the kernel writes after the tick: what the slot of its clock then holds.
abbrev added : ConnKey → Stats
added k = counts_in ring_bpf (line ring_bpf slots kernel ticked.current_ticker_clock 19) k

added-IsSmall : (k : ConnKey) → IsSmall (added k)
unfolding line
added-IsSmall k = batch-IsSmall (slots ((ticked.current_ticker_clock + 1 + 19) % 20)) _ k

after-emptied :
    (k : ConnKey)
    → counts_in ring_bpf (line ring_bpf slots (after locals) ticked.current_ticker_clock 19) k
      ≡ (0, 0)
unfolding after
after-emptied k =
    let (r, h) = tick_ok locals in
    counts_in-empty ring_bpf complete _ k
      (tick-Shifts ring_bpf slots env locals kernel r kernel-IsRing (omega arith) h).emptied

zero_plus : (v z : Stats) → z ≡ (0, 0) → v ≡ (z.0 + v.0, z.1 + v.1)
zero_plus v z e =
    ap₂ (λ n m. (n, m)) (omega (arith, ap (λ t. t.0) e)) (omega (arith, ap (λ t. t.1) e))

-- The last place of the line is that of the slot of the clock.
last_slot : (clock : ℕ) → slots (clock % 20) ≡ slots ((clock + 1 + 19) % 20)
last_slot clock = ap slots (omega arith)

after-Adds : Adds ring_bpf slots added (after locals) kernel
unfolding line
after-Adds =
    let writes = after-Writes locals (omega arith) in
    record {
      same_slots = writes.same_slots;
      slot = (ticked.current_ticker_clock + 1 + 19) % 20;
      is_slot = omega arith;
      others = λ j ne. writes.others j (λ e. ne (sym (last_slot ticked.current_ticker_clock) ∙ e));
      sums = λ k. zero_plus (added k) _ (after-emptied k);
    }

pub small-Fits :
    (n : ℕ) (written : ConnKey → Stats)
    → n < 100
    → ((k : ConnKey) → IsSmall (written k))
    → Fits vectors whole_bounds ring_bpf slots world n written
small-Fits n written few small = record {
  clock = omega arith;
  seconds = λ kind key. omega (arith, seconds_zero (label kind ∷ key));
  connections = λ kind key. omega (
    arith,
    connections_zero (conn_label kind ∷ key),
    of_labels-le 40 (in_ring vectors whole_bounds ring_bpf slots world kind) key (ring-le kind),
    of_labels-le 2 (λ k. count_of kind (written k)) key (λ k. count_of-le kind _ (small k)),
  );
  keys = λ k. omega (
    arith,
    connections_zero (conn_label successful ∷ labels_of k),
    connections_zero (conn_label rejected ∷ labels_of k),
    ring-le successful k,
    ring-le rejected k,
    small k,
  );
}

pub incs_of-received : (incs : List Inc) → incs_of (received incs) ≡ incs
incs_of-received [] = refl
incs_of-received (inc ∷ incs) = ap (λ is. inc ∷ is) (incs_of-received incs)

-- The kernel's writes in the run of one tick.
abbrev written : ConnKey → Stats
written k = (0 + (added k).0, 0 + (added k).1)

taken :
    (z : Exported vectors whole_bounds) × (receive_all vectors whole_bounds
        (received report.incs)
        exported
      ≡ ok z)
taken =
    Exporting-receives vectors whole_bounds ring_bpf slots complete world (λ n. env)
      (λ n. env-Ranges) kernel-IsRing new_counters-IsValid refl 0 (λ k. (0, 0)) world report
      (received report.incs) (small-Fits 1 _ (omega arith) (λ k. (omega arith, omega arith)))
      Exporting.here (tick_ok locals).1 (incs_of-received report.incs)
      (report_texts locals kernel report kernel-IsBatch (tick_ok locals).1)

abbrev world_after : World vectors whole_bounds ring_bpf
world_after = record {
  locals = ticked;
  kernel = kernel;
  exported = delete_expired vectors whole_bounds ring_bpf report.deleted taken.0;
}

run : Exporting vectors whole_bounds ring_bpf slots (λ n. env) world 1 written world_after
unfolding after
run =
    Exporting.reporting Exporting.here report ticked (after locals) kernel (received report.incs)
      taken.0 added (ap (λ o. (ticked, after locals, o)) (tick_ok locals).1)
      (incs_of-received report.incs) taken.1 after-Adds

Exporting-Conserves_example :
    Conserves vectors whole_bounds ring_bpf slots world written world_after
Exporting-Conserves_example =
    Exporting-Conserves vectors whole_bounds ring_bpf slots complete world (λ n. env)
      (λ n. env-Ranges) kernel-IsRing new_counters-IsValid refl 1 written world_after
      (small-Fits 1 written (omega arith) (λ k. omega (arith, added-IsSmall k))) run

-- Nothing but the first tick.
Exporting-receives_example :
    (z : Exported vectors whole_bounds) × (receive_all vectors whole_bounds
        (received report.incs)
        exported
      ≡ ok z)
Exporting-receives_example =
    Exporting-receives vectors whole_bounds ring_bpf slots complete world (λ n. env)
      (λ n. env-Ranges) kernel-IsRing new_counters-IsValid refl 0 (λ k. (0, 0)) world report
      (received report.incs) (small-Fits 1 _ (omega arith) (λ k. (omega arith, omega arith)))
      Exporting.here (tick_ok locals).1 (incs_of-received report.incs)
      (report_texts locals kernel report kernel-IsBatch (tick_ok locals).1)
