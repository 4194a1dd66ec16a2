-- ===== src/Packet/Ring/Pops.antt =====
-- One tick on the delay line.
use connectivity_exporter.Prelude.{
  ℕ, ◌+◌, ◌%◌, ◌^◌, ◌<◌, ◌≡◌, ◌≢◌, sym, ap, ◌∙◌, arith, [], none, some, map,
}
use connectivity_exporter.Prelude.GoString.{GoString}
use connectivity_exporter.Prelude.GoMap.{GoMap, keys}
use connectivity_exporter.Prelude.Results.{ok, found}
use connectivity_exporter.Packet.Connection.{ConnKey}
use connectivity_exporter.Packet.Ebpf.{Bpf, Kernel, Stats}
use connectivity_exporter.Packet.Tracker.{Env, Locals, Report, tick, collect_stats}
use connectivity_exporter.Packet.Tracker.Ring.{NextSlot, tick-NextSlot}
use connectivity_exporter.Packet.Tracker.Reports.{
  Ranges, fresh_verdict, TickReport, tick-TickReport,
}
use connectivity_exporter.Packet.Ring.{IsRing, line}

some-injective : {a c : ℕ} → some a ≡ some c → a ≡ c
some-injective h = cc

module _ (b : Bpf) (slots : ℕ → ℕ) where
  pub IsRing-same :
      (w w' : Kernel b) → w'.stats_map ≡ w.stats_map → IsRing b slots w → IsRing b slots w'
  IsRing-same w w' same ring = record {
    each = λ i lt. ap (λ m. found (b.outer.lookup m i)) same ∙ ring.each i lt;
    apart = ring.apart;
  }

  -- The oldest map is taken off the line, and an empty one is put at its end.
  pub record Shifts (l l' : Locals) (w w' : Kernel b) : Type 0 where
    pub clock : l'.current_ticker_clock ≡ l.current_ticker_clock + 1
    pub ring : IsRing b slots w'
    pub shifted :
        (i : ℕ)
        → i < 19
        → line b slots w' l'.current_ticker_clock i ≡ line b slots w l.current_ticker_clock (i + 1)
    pub emptied :
        (key : GoString)
        → found (b.inner.lookup (line b slots w' l'.current_ticker_clock 19) key) ≡ none

  -- The report is on the oldest map.
  pub record Reports (env : Env) (l : Locals) (w : Kernel b) (r : Report) : Type 0 where
    pub stats : GoMap ConnKey Stats
    pub collected :
        collect_stats (b.inner.iterate (line b slots w l.current_ticker_clock 0)).0 [] ≡ ok stats
    pub incs :
        r.incs
        ≡ map (λ k. (fresh_verdict l.previous_failed_second stats k).0) (env.order (keys stats))

  -- A pop of the delay line.
  pub record Pops (env : Env) (l l' : Locals) (w w' : Kernel b) (r : Report) : Type 0 where
    pub shifts : Shifts l l' w w'
    pub reports : Reports env l w r

  slot_of :
      (w : Kernel b) (i fd : ℕ)
      → IsRing b slots w
      → i < 20
      → found (b.outer.lookup w.stats_map i) ≡ some fd
      → slots i ≡ fd
  slot_of w i fd ring lt h = some-injective (sym (ring.each i lt) ∙ h)

  pub slots_apart :
      (w : Kernel b) (i j : ℕ)
      → IsRing b slots w
      → i % 20 ≢ j % 20
      → slots (i % 20) ≢ slots (j % 20)
  slots_apart w i j ring ne = ring.apart (i % 20) (j % 20) (omega arith) (omega arith) ne

  NextSlot-Shifts :
      (l l' : Locals) (w w' : Kernel b)
      → IsRing b slots w
      → l.current_ticker_clock + 1 < 2 ^ 64
      → NextSlot b l l' w w'
      → Shifts l l' w w'
  unfolding line
  NextSlot-Shifts l l' w w' ring small n = record {
    clock = clock;
    ring = IsRing-same w w' n.same_slots ring;
    shifted = λ i lt.
        n.others (slots ((c' + 1 + i) % 20)) (apart i lt)
        ∙ ap (λ j. w.inner_maps (slots (j % 20))) (moved i);
    emptied = λ key. ap (λ j. found (b.inner.lookup (w'.inner_maps j) key)) last ∙ n.empty key;
  }
    where
      c : ℕ
      c = l.current_ticker_clock

      c' : ℕ
      c' = l'.current_ticker_clock

      clock : c' ≡ c + 1
      clock = omega (arith, n.clock)

      new_slot : slots (c' % 20) ≡ n.fd
      new_slot = slot_of w (c' % 20) n.fd ring (omega arith) n.is_slot

      apart : (i : ℕ) → i < 19 → n.fd ≢ slots ((c' + 1 + i) % 20)
      apart i lt e = slots_apart w c' (c' + 1 + i) ring (omega arith) (new_slot ∙ e)

      moved : (i : ℕ) → c' + 1 + i ≡ c + 1 + (i + 1)
      moved i = omega (arith, clock)

      last : slots ((c' + 1 + 19) % 20) ≡ n.fd
      last = ap slots (omega arith) ∙ new_slot

  TickReport-Reports :
      (env : Env) (l l' : Locals) (w : Kernel b) (r : Report)
      → IsRing b slots w
      → l'.current_ticker_clock ≡ l.current_ticker_clock + 1
      → TickReport b env l l' w r
      → Reports env l w r
  unfolding line
  TickReport-Reports env l l' w r ring clock t = record {
    stats = t.stats;
    collected = ap (λ j. collect_stats (b.inner.iterate (w.inner_maps j)).0 []) first ∙ t.collected;
    incs = t.incs;
  }
    where
      first : slots ((l.current_ticker_clock + 1 + 0) % 20) ≡ t.fd
      first =
          ap (λ j. slots (j % 20)) (omega (arith, clock))
          ∙ slot_of w (l'.current_ticker_clock % 20) t.fd ring (omega arith) t.is_slot

  pub tick-Shifts :
      (env : Env) (l : Locals) (w : Kernel b) (r : Report)
      → IsRing b slots w
      → l.current_ticker_clock + 1 < 2 ^ 64
      → (tick b env l w).2 ≡ ok r
      → Shifts l (tick b env l w).0 w (tick b env l w).1
  tick-Shifts env l w r ring small h =
      NextSlot-Shifts l (tick b env l w).0 w (tick b env l w).1 ring small
        (tick-NextSlot b env l w r (omega arith) h)

  -- A tick that reports, below the wrap of the clock and under a runtime that ranges over each key
  -- of a map once, implements the delay line's pop.
  pub tick-Pops :
      (env : Env) (l : Locals) (w : Kernel b) (r : Report)
      → IsRing b slots w
      → l.current_ticker_clock + 1 < 2 ^ 64
      → Ranges env
      → (tick b env l w).2 ≡ ok r
      → Pops env l (tick b env l w).0 w (tick b env l w).1 r
  tick-Pops env l w r ring small ranges h =
      let shifts = tick-Shifts env l w r ring small h in
      record {
        shifts = shifts;
        reports =
            TickReport-Reports env l (tick b env l w).0 w r ring shifts.clock
              (tick-TickReport b env l w r ranges h);
      }
