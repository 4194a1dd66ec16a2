-- ===== src/Tests/Overlap.antt =====
-- A tick during which the kernel counts in the slot of its clock.
use connectivity_exporter.Prelude.{◌≡◌, refl, ap, arith, ite, [], ◌∷◌, ℕ_discrete}
use connectivity_exporter.Prelude.GoMap.{GoMap, get, put, delete}
use connectivity_exporter.Prelude.GoString.{GoString-discrete, bytes}
use connectivity_exporter.Prelude.Float64.{◌+f◌, of_uint64, round}
use connectivity_exporter.Prelude.Results.{ok}
use connectivity_exporter.Packet.Account.{
  account_for_connections, delete_expired_snis, scan_connections,
}
use connectivity_exporter.Packet.Bytes.Addresses.{conn_key_of_bytes}
use connectivity_exporter.Packet.Connection.{ConnKey, ConnKey-discrete}
use connectivity_exporter.Packet.Ebpf.{Kernel, Stats}
use connectivity_exporter.Packet.Tracker.{
  Locals, init_locals, collect_stats, set_inner, finish_tick, group_stale, add_old_keys,
  add_stats_keys, add_stale, no_connections, account_keys, account_key, old_connections,
}
use connectivity_exporter.Packet.Tracker.Branches.{old_of, without_old}
use connectivity_exporter.Packet.Ring.{Writes}
use connectivity_exporter.Packet.Ring.Overlap.{Deleting, Overlapped}
use connectivity_exporter.Packet.Ring.Overlap.Sequential.{Sequential, Overlapped-Sequential}
use connectivity_exporter.Tests.Models.{get-none}
use connectivity_exporter.Tests.Ring.{ring_bpf, env, slots, kernel, kernel-IsRing, stats_key}
use connectivity_exporter.Tests.Tracker.{report}

-- The next slot to be read is 0, which holds a batch.
abbrev late : Locals
late = record init_locals { current_ticker_clock = 19 }

abbrev looked_up : Kernel ring_bpf
looked_up = without_old ring_bpf late kernel

abbrev emptied : Kernel ring_bpf
emptied =
    set_inner ring_bpf looked_up 100 (ring_bpf.inner.delete (looked_up.inner_maps 100) stats_key)

-- In slot 19, between the deletion and the `Put`.
abbrev cleaned : Kernel ring_bpf
cleaned = record emptied {
  inner_maps = λ j.
      ite (ℕ_discrete 119 j) ((stats_key, (4, 0)) ∷ [], (get-none GoString-discrete stats_key, tt))
        (emptied.inner_maps j);
}

counted-Writes : Writes ring_bpf slots 19 emptied cleaned
counted-Writes = record { same_slots = refl; others = λ j ne. ground arith }

abbrev stats : GoMap ConnKey Stats
stats =
    (record { source_ip = bytes "10.0.0.1"; dest_ip = bytes "10.0.0.2"; sni = bytes "a" }, (2, 1))
    ∷ []

stats_collected : collect_stats (ring_bpf.inner.iterate (looked_up.inner_maps 100)).0 [] ≡ ok stats
unfolding collect_stats conn_key_of_bytes get put ℕ_discrete ConnKey-discrete
stats_collected = refl

finished : (finish_tick ring_bpf env late cleaned (old_of ring_bpf late kernel) stats).2 ≡ ok report
unfolding finish_tick old_connections get put delete group_stale add_old_keys add_stats_keys
    add_stale no_connections account_keys account_key ℕ_discrete account_for_connections
    delete_expired_snis ConnKey-discrete ◌+f◌ scan_connections round of_uint64
finished = refl

abbrev locals_then : Locals
locals_then = (finish_tick ring_bpf env late cleaned (old_of ring_bpf late kernel) stats).0

abbrev kernel_then : Kernel ring_bpf
kernel_then = (finish_tick ring_bpf env late cleaned (old_of ring_bpf late kernel) stats).1

overlapped : Overlapped ring_bpf slots env late kernel report locals_then kernel_then
unfolding ℕ_discrete
overlapped = record {
  complete = refl;
  looked_up = looked_up;
  early = record { same_slots = refl; others = λ j ne. refl };
  fd = 100;
  is_slot = refl;
  stats = stats;
  collected = stats_collected;
  ended = refl;
  cleaned = cleaned;
  deleting = Deleting.deletes (Deleting.writes counted-Writes Deleting.done);
  rest = ap (λ o. (locals_then, kernel_then, o)) finished;
}

Overlapped-Sequential_example :
    Sequential ring_bpf slots env late kernel report locals_then kernel_then
Overlapped-Sequential_example =
    Overlapped-Sequential ring_bpf slots env late kernel report locals_then kernel_then
      kernel-IsRing (omega arith) overlapped
