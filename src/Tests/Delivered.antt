-- ===== src/Tests/Delivered.antt =====
-- Twenty ticks on a kernel that has counted one batch and counts nothing more.
use connectivity_exporter.Prelude.{
  ℕ, zero, suc, ◌+◌, ◌<◌, ◌≡◌, refl, sym, subst, ap, ap₂, ◌∙◌, arith, [], All, ℕ_discrete, inl, inr,
}
use connectivity_exporter.Prelude.GoMap.{get, GoMap}
use connectivity_exporter.Prelude.GoString.{GoString, GoString-discrete}
use connectivity_exporter.Prelude.Results.{ok, found}
use connectivity_exporter.Metrics.Apply.Kinds.{successful, rejected}
use connectivity_exporter.Packet.Connection.{ConnKey}
use connectivity_exporter.Packet.Ebpf.{Kernel, Stats}
use connectivity_exporter.Packet.Tracker.{Locals, Report, tick}
use connectivity_exporter.Packet.Tracker.Branches.{next_slot}
use connectivity_exporter.Packet.Tracker.Progress.{HasAddresses, tick-reports}
use connectivity_exporter.Packet.Tracker.Ring.{NextSlot, tick-NextSlot}
use connectivity_exporter.Packet.Tracker.Stale.{any_old}
use connectivity_exporter.Packet.Ring.{line}
use connectivity_exporter.Packet.Ring.Counted.{Adds}
use connectivity_exporter.Packet.Ring.Counted.Ticks.{no_entries}
use connectivity_exporter.Exporter.{received}
use connectivity_exporter.Exporter.Incs.{labels_of}
use connectivity_exporter.Exporter.Conservation.{
  delete_expired, World, Exporting, in_ring, connections_at,
}
use connectivity_exporter.Exporter.Conservation.Runs.{Exporting-receives}
use connectivity_exporter.Exporter.Conservation.Delivered.{Drains, Drains-Delivers}
use connectivity_exporter.Tests.Models.{vectors, whole_bounds}
use connectivity_exporter.Tests.Conservation.{
  IsSmall, batch_key, complete, world, small-Fits, incs_of-received, IsBatch, kernel-IsBatch,
  report_texts,
}
use connectivity_exporter.Tests.Metrics.{new_counters-IsValid}
use connectivity_exporter.Tests.Ring.{ring_bpf, env, env-Ranges, slots, kernel, kernel-IsRing}

abbrev Ready : Kernel ring_bpf → Type 0
Ready w =
    (w.connection_map ≡ ([], tt))
    × (w.stats_map ≡ kernel.stats_map)
    × ((fd : ℕ) → IsBatch (w.inner_maps fd).0)

-- The keys of a batch have two addresses.
batch_addresses : (m : GoMap GoString Stats) → IsBatch m → All (λ e. HasAddresses e.0) m
batch_addresses m (inl e) = subst (All (λ e. HasAddresses e.0)) (sym e) tt
batch_addresses m (inr e) = subst (All (λ e. HasAddresses e.0)) (sym e) (omega arith, tt)

tick_ok :
    (l : Locals) (w : Kernel ring_bpf) → Ready w → (r : Report) × ((tick ring_bpf env l w).2 ≡ ok r)
tick_ok l w (none_open, same, batches) =
    tick-reports ring_bpf env l w (slots (next_slot ring_bpf l))
      (ap (λ m. ring_bpf.outer.lookup m (next_slot ring_bpf l)) same) refl
      (ap (λ m. any_old l.current_ticker_clock (ring_bpf.connection.iterate m).0) none_open) refl
      (batch_addresses _ (batches (slots (next_slot ring_bpf l))))

-- Between the ticks the connections go, and nothing is counted.
idle : Kernel ring_bpf → Kernel ring_bpf
idle w = record w { connection_map = ([], tt) }

found-get :
    (m : ring_bpf.inner.Map) (key : GoString)
    → get GoString-discrete m.0 key ≡ found (ring_bpf.inner.lookup m key)
found-get m key = ring_bpf.inner.get-iterate m key refl

NextSlot-Ready :
    (l l' : Locals) (w w' : Kernel ring_bpf)
    → Ready w
    → NextSlot ring_bpf l l' w w'
    → Ready (idle w')
unfolding idle
NextSlot-Ready l l' w w' (none_open, same, batches) n =
    (refl, n.same_slots ∙ same, λ j. by_slot j (ℕ_discrete n.fd j))
  where
    by_slot : (j : ℕ) → Dec (n.fd ≡ j) → IsBatch (w'.inner_maps j).0
    by_slot j (yes e) =
        let none_left =
          no_entries (w'.inner_maps n.fd).0
            (λ key. found-get (w'.inner_maps n.fd) key ∙ n.empty key) in
        inl (ap (λ i. (w'.inner_maps i).0) (sym e) ∙ none_left)
    by_slot j (no ne) = subst (λ m. IsBatch m.0) (sym (n.others j ne)) (batches j)

plus_zero : (v : Stats) → v ≡ (v.0 + 0, v.1 + 0)
plus_zero v = ap₂ (λ n m. (n, m)) (omega arith) (omega arith)

idle-Adds : (w : Kernel ring_bpf) → Adds ring_bpf slots (λ key. (0, 0)) w (idle w)
unfolding idle line
idle-Adds w = record {
  same_slots = refl;
  slot = 0;
  is_slot = omega arith;
  others = λ j ne. refl;
  sums = λ key. plus_zero _;
}

-- So many ticks, each of which reports.
record Quiet (k : ℕ) : Type 0 where
  world_then : World vectors whole_bounds ring_bpf
  written : ConnKey → Stats
  run : Exporting vectors whole_bounds ring_bpf slots (λ n. env) world k written world_then
  drains : Drains k run
  ready : Ready world_then.kernel
  none_written : (key : ConnKey) → written key ≡ (0, 0)
  clock : world_then.locals.current_ticker_clock ≡ 19 + k

sum-IsSmall : (v : Stats) → v ≡ (0, 0) → IsSmall (v.0 + 0, v.1 + 0)
sum-IsSmall v e = omega (arith, ap (λ t. t.0) e, ap (λ t. t.1) e)

zero-IsSmall : (v : Stats) → v ≡ (0, 0) → IsSmall v
zero-IsSmall v e = omega (arith, ap (λ t. t.0) e, ap (λ t. t.1) e)

tick-Quiet : (k : ℕ) → k < 50 → Quiet k → Quiet (suc k)
tick-Quiet k few q =
    let y = q.world_then in
    let (r, h) = tick_ok y.locals y.kernel q.ready in
    let n = tick-NextSlot ring_bpf env y.locals y.kernel r (omega (arith, q.clock)) h in
    let taken =
      Exporting-receives vectors whole_bounds ring_bpf slots complete world (λ n. env)
        (λ n. env-Ranges) kernel-IsRing new_counters-IsValid refl k q.written y r (received r.incs)
        (small-Fits (suc k) _ (omega arith)
          (λ key. sum-IsSmall (q.written key) (q.none_written key)))
        q.run h (incs_of-received r.incs) (report_texts y.locals y.kernel r q.ready.2 h) in
    let l1 = (tick ring_bpf env y.locals y.kernel).0 in
    let w1 = (tick ring_bpf env y.locals y.kernel).1 in
    record {
      world_then = record {
        locals = l1;
        kernel = idle w1;
        exported = delete_expired vectors whole_bounds ring_bpf r.deleted taken.0;
      };
      written = λ key. ((q.written key).0 + 0, (q.written key).1 + 0);
      run =
          Exporting.reporting q.run r l1 w1 (idle w1) (received r.incs) taken.0 (λ key. (0, 0))
            (ap (λ o. (l1, w1, o)) h) (incs_of-received r.incs) taken.1 (idle-Adds w1);
      drains = (λ key. refl, q.drains);
      ready = NextSlot-Ready y.locals l1 y.kernel w1 q.ready n;
      none_written = λ key. sym (plus_zero (q.written key)) ∙ q.none_written key;
      clock = omega (arith, n.clock, q.clock);
    }

ticks : (k : ℕ) → k < 50 → Quiet k
ticks zero few = record {
  world_then = world;
  written = λ key. (0, 0);
  run = Exporting.here;
  drains = tt;
  ready = (refl, refl, kernel-IsBatch);
  none_written = λ key. refl;
  clock = refl;
}
ticks (suc k) few = tick-Quiet k (omega arith) (ticks k (omega arith))

twenty : Quiet 20
twenty = ticks 20 (omega arith)

Drains-Delivers_example :
    (connections_at vectors whole_bounds ring_bpf twenty.world_then successful (labels_of batch_key)
      ≡ connections_at vectors whole_bounds ring_bpf world successful (labels_of batch_key)
        + in_ring vectors whole_bounds ring_bpf slots world successful batch_key
        + (twenty.written batch_key).0)
    × (connections_at vectors whole_bounds ring_bpf twenty.world_then rejected (labels_of batch_key)
        ≡ connections_at vectors whole_bounds ring_bpf world rejected (labels_of batch_key)
          + in_ring vectors whole_bounds ring_bpf slots world rejected batch_key
          + (twenty.written batch_key).1)
Drains-Delivers_example =
    Drains-Delivers vectors whole_bounds ring_bpf slots complete world (λ n. env) (λ n. env-Ranges)
      kernel-IsRing new_counters-IsValid refl 20 twenty.written twenty.world_then batch_key
      twenty.run
      (small-Fits 20 twenty.written (omega arith) (λ key. zero-IsSmall _ (twenty.none_written key)))
      twenty.drains
