-- ===== src/Packet/Tracker/Progress.antt =====
-- When a tick of `TrackConnections` reports.
use connectivity_exporter.Prelude.{
  ℕ, ◌-◌, ◌≤◌, ◌≡◌, refl, ap, ◌∙◌, arith, false, List, [], ◌∷◌, ◌++◌, none, length, take, drop, All,
}
use connectivity_exporter.Prelude.GoMap.{GoMap, put}
use connectivity_exporter.Prelude.GoString.{GoString}
use connectivity_exporter.Prelude.Results.{ok, value}
use connectivity_exporter.Packet.Connection.{ConnKey, ConnKey-discrete, TupleData}
use connectivity_exporter.Packet.Bytes.{CTupleData, slice, before_zero, tuple_data_from_c}
use connectivity_exporter.Packet.Bytes.Addresses.{conn_key_of_bytes, decimal}
use connectivity_exporter.Packet.Ebpf.{Bpf, Kernel, Stats, TupleKey}
use connectivity_exporter.Packet.Tracker.{
  Env, Locals, Report, collect_stats, finish_tick, group_stale, add_old_keys, add_stale, tick,
  read_and_clean, get_oldest_stats_and_cleanup, old_connections,
}
use connectivity_exporter.Packet.Tracker.Branches.{tick_read, reading, next_slot, without_old}
use connectivity_exporter.Packet.Tracker.Stale.{any_old}

-- The key of an inner map is a fixed array of 8 + 128 bytes; the program needs the first eight.
abbrev pub HasAddresses : GoString → Type 0
HasAddresses k = 8 ≤ length k

slice_lem :
    (s : GoString) (lo hi : ℕ)
    → lo ≤ hi
    → hi ≤ length s
    → slice s lo hi ≡ ok (take (hi - lo) (drop lo s))
unfolding slice
slice_lem s lo hi le fits = ground arith

ip_text : ℕ → ℕ → ℕ → ℕ → GoString
ip_text a b c d = decimal a ++ b'.' ∷ decimal b ++ b'.' ∷ decimal c ++ b'.' ∷ decimal d

conn_key_of_bytes-total :
    (k : GoString) → HasAddresses k → (key : ConnKey) × (conn_key_of_bytes k ≡ ok key)
unfolding conn_key_of_bytes ip_text
conn_key_of_bytes-total [] fits = absurd (omega arith)
conn_key_of_bytes-total (a ∷ []) fits = absurd (omega arith)
conn_key_of_bytes-total (a ∷ b ∷ []) fits = absurd (omega arith)
conn_key_of_bytes-total (a ∷ b ∷ c ∷ []) fits = absurd (omega arith)
conn_key_of_bytes-total (a ∷ b ∷ c ∷ d ∷ []) fits = absurd (omega arith)
conn_key_of_bytes-total (a ∷ b ∷ c ∷ d ∷ e ∷ []) fits = absurd (omega arith)
conn_key_of_bytes-total (a ∷ b ∷ c ∷ d ∷ e ∷ f ∷ []) fits = absurd (omega arith)
conn_key_of_bytes-total (a ∷ b ∷ c ∷ d ∷ e ∷ f ∷ g ∷ []) fits = absurd (omega arith)
conn_key_of_bytes-total (a ∷ b ∷ c ∷ d ∷ e ∷ f ∷ g ∷ h ∷ rest) fits =
    let k : GoString = a ∷ b ∷ c ∷ d ∷ e ∷ f ∷ g ∷ h ∷ rest in
    (
      record {
        source_ip = ip_text a b c d;
        dest_ip = ip_text e f g h;
        sni = before_zero (take (length k - 8) (drop 8 k));
      },
      rw
          (
            slice_lem k 0 4 (omega arith) (omega arith),
            slice_lem k 4 8 (omega arith) (omega arith),
            slice_lem k 8 (length k) (omega arith) (omega arith),
          )
          refl,
    )

collect_stats-total :
    (entries : List (GoString × Stats)) (acc : GoMap ConnKey Stats)
    → All (λ e. HasAddresses e.0) entries
    → (out : GoMap ConnKey Stats) × (collect_stats entries acc ≡ ok out)
unfolding collect_stats
collect_stats-total [] acc h = (acc, refl)
collect_stats-total ((k, v) ∷ entries) acc h =
    let (key, e) = conn_key_of_bytes-total k h.0 in
    let (out, rest) = collect_stats-total entries (put ConnKey-discrete acc key v) h.1 in
    (out, rw e rest)

old_connections-none :
    (clock : ℕ) (entries : List (TupleKey × CTupleData)) (old : GoMap TupleKey TupleData)
    → any_old clock entries ≡ false
    → old_connections clock entries old ≡ old
unfolding old_connections tuple_data_from_c
old_connections-none clock [] old h = refl
old_connections-none clock ((k, v) ∷ entries) old h =
    ground (arith, old_connections-none clock entries old)

finish_tick-reports :
    (b : Bpf) (env : Env) (l : Locals) (w : Kernel b) (stats : GoMap ConnKey Stats)
    → (r : Report) × ((finish_tick b env l w [] stats).2 ≡ ok r)
unfolding finish_tick group_stale add_old_keys add_stale
finish_tick-reports b env l w stats = (_, refl)

read_and_clean-ok :
    (b : Bpf) (w : Kernel b) (fd : ℕ)
    → (b.inner.iterate (w.inner_maps fd)).1 ≡ none
    → All (λ e. HasAddresses e.0) (b.inner.iterate (w.inner_maps fd)).0
    → (out : GoMap ConnKey Stats) × ((read_and_clean b w fd).1 ≡ ok out)
unfolding read_and_clean
read_and_clean-ok b w fd complete keys =
    let (out, e) = collect_stats-total (b.inner.iterate (w.inner_maps fd)).0 [] keys in
    (out, rw (read_and_clean, e, complete))

-- A tick whose clock's next slot holds a map reports, if both iterations end with no error, no
-- connection is old, and each key of that map has at least the eight bytes of two addresses.
pub tick-reports :
    (b : Bpf) (env : Env) (l : Locals) (w : Kernel b) (fd : ℕ)
    → b.outer.lookup w.stats_map (next_slot b l) ≡ value fd
    → (b.connection.iterate w.connection_map).1 ≡ none
    → any_old l.current_ticker_clock (b.connection.iterate w.connection_map).0 ≡ false
    → (b.inner.iterate (w.inner_maps fd)).1 ≡ none
    → All (λ e. HasAddresses e.0) (b.inner.iterate (w.inner_maps fd)).0
    → (r : Report) × ((tick b env l w).2 ≡ ok r)
unfolding get_oldest_stats_and_cleanup
tick-reports b env l w fd slot complete none_old read keys =
    let (out, e) = read_and_clean-ok b (without_old b l w) fd read keys in
    let got : (reading b l w).1 ≡ ok out = rw (get_oldest_stats_and_cleanup, slot) e in
    let (r, reports) = finish_tick-reports b env l (reading b l w).0 out in
    let old =
      old_connections-none l.current_ticker_clock (b.connection.iterate w.connection_map).0 []
        none_old in
    (
      r,
      ap (λ t. t.2) (tick_read b env l w complete out got)
          ∙ ap (λ o. (finish_tick b env l (reading b l w).0 o out).2) old
          ∙ reports,
    )
