-- ===== src/Packet/Tracker/Entries.antt =====
-- What `getOldestStatsAndCleanup` of connectivity-exporter/packet/packet.go reads from the entries of
-- a slot, by their bytes.
use connectivity_exporter.Prelude.{
  ℕ, ◌-◌, ◌≤◌, ◌<◌, dec_lt, length, take, drop, ◌≡◌, ◌≢◌, refl, sym, ap, ◌∙◌, arith, ite, List, [],
  ◌∷◌, ◌++◌, Option, none, some, All,
}
use connectivity_exporter.Prelude.GoMap.{GoMap, get, put, get-put}
use connectivity_exporter.Prelude.GoString.{GoString}
use connectivity_exporter.Prelude.Results.{ok, found, >>=-eq-ok, ok-injective}
use connectivity_exporter.Packet.Bytes.{before_zero, slice}
use connectivity_exporter.Packet.Bytes.Addresses.{decimal, ip_string, conn_key_of_bytes}
use connectivity_exporter.Packet.Connection.{ConnKey, ConnKey-discrete}
use connectivity_exporter.Packet.Ebpf.{Bpf, Kernel, Stats}
use connectivity_exporter.Packet.Query.Names.{or_stats, or_stats-ite, take-all, slice_end}
use connectivity_exporter.Packet.Tracker.{collect_stats, get_oldest_stats_and_cleanup}
use connectivity_exporter.Packet.Tracker.Ring.{get_oldest-Cleaned}

abbrev dotted : ℕ → ℕ → ℕ → ℕ → GoString
dotted a b c d = decimal a ++ b'.' ∷ decimal b ++ b'.' ∷ decimal c ++ b'.' ∷ decimal d

-- The key in the bytes of an entry: two addresses, and the name up to the first zero.
abbrev pub key_in : GoString → Option ConnKey
key_in (a ∷ b ∷ c ∷ d ∷ e ∷ f ∷ g ∷ h ∷ name) =
    some (record { source_ip = dotted a b c d; dest_ip = dotted e f g h; sni = before_zero name })
key_in _ = none

abbrev pub is_keyed : Option ConnKey → ConnKey → Stats → Option Stats
is_keyed none k v = none
is_keyed (some j) k v = ite (ConnKey-discrete j k) (some v) none

-- The counts of the last entry with a key.
abbrev pub last_keyed : List (GoString × Stats) → ConnKey → Option Stats
last_keyed [] k = none
last_keyed ((key, v) ∷ entries) k = or_stats (last_keyed entries k) (is_keyed (key_in key) k v)

slice_in :
    (s : GoString) (lo hi : ℕ)
    → lo ≤ hi
    → hi ≤ length s
    → slice s lo hi ≡ ok (take (hi - lo) (drop lo s))
unfolding slice
slice_in s lo hi le fits = ground arith

no_key : (s : GoString) (k : ConnKey) → length s < 8 → conn_key_of_bytes s ≢ ok k
unfolding conn_key_of_bytes
no_key s k short e =
    let (source, q, e1) = >>=-eq-ok (slice s 0 4) _ e in
    let (dest, r, e2) = >>=-eq-ok (slice s 4 8) _ e1 in
    let (name, t, e3) = >>=-eq-ok (slice s 8 (length s)) _ e2 in omega (arith, slice_end s name 8 t)

key_of_eight :
    (a b c d e f g h : ℕ) (name : GoString) (k : ConnKey)
    → conn_key_of_bytes (a ∷ b ∷ c ∷ d ∷ e ∷ f ∷ g ∷ h ∷ name) ≡ ok k
    → key_in (a ∷ b ∷ c ∷ d ∷ e ∷ f ∷ g ∷ h ∷ name) ≡ some k
unfolding conn_key_of_bytes ip_string
key_of_eight a b c d e f g h name k q =
    let s : GoString = a ∷ b ∷ c ∷ d ∷ e ∷ f ∷ g ∷ h ∷ name in
    let first : slice s 0 4 ≡ ok (a ∷ b ∷ c ∷ d ∷ []) =
      slice_in s 0 4 (omega arith) (omega arith) in
    let second : slice s 4 8 ≡ ok (e ∷ f ∷ g ∷ h ∷ []) =
      slice_in s 4 8 (omega arith) (omega arith) in
    let whole : slice s 8 (length s) ≡ ok name =
      slice_in s 8 (length s) (omega arith) (omega arith)
      ∙ ap ok (take-all name (length s - 8) (omega arith)) in
    ap some (ok-injective (rw (first, second, whole) at q))

key_in-conn_key_of_bytes :
    (s : GoString) (k : ConnKey) → conn_key_of_bytes s ≡ ok k → key_in s ≡ some k
key_in-conn_key_of_bytes ([]) k q = absurd (no_key _ k (omega arith) q)
key_in-conn_key_of_bytes (a ∷ []) k q = absurd (no_key _ k (omega arith) q)
key_in-conn_key_of_bytes (a ∷ b ∷ []) k q = absurd (no_key _ k (omega arith) q)
key_in-conn_key_of_bytes (a ∷ b ∷ c ∷ []) k q = absurd (no_key _ k (omega arith) q)
key_in-conn_key_of_bytes (a ∷ b ∷ c ∷ d ∷ []) k q = absurd (no_key _ k (omega arith) q)
key_in-conn_key_of_bytes (a ∷ b ∷ c ∷ d ∷ e ∷ []) k q = absurd (no_key _ k (omega arith) q)
key_in-conn_key_of_bytes (a ∷ b ∷ c ∷ d ∷ e ∷ f ∷ []) k q = absurd (no_key _ k (omega arith) q)
key_in-conn_key_of_bytes (a ∷ b ∷ c ∷ d ∷ e ∷ f ∷ g ∷ []) k q = absurd (no_key _ k (omega arith) q)
key_in-conn_key_of_bytes (a ∷ b ∷ c ∷ d ∷ e ∷ f ∷ g ∷ h ∷ name) k q =
    key_of_eight a b c d e f g h name k q

-- Each entry has a key.
abbrev pub AllKeyed : List (GoString × Stats) → Type 0
AllKeyed entries = All (λ e. 8 ≤ length e.0) entries

keyed_put :
    (key : GoString) (j k : ConnKey) (v : Stats) (later before : Option Stats)
    → key_in key ≡ some j
    → or_stats later (ite (ConnKey-discrete j k) (some v) before)
      ≡ or_stats (or_stats later (is_keyed (key_in key) k v)) before
keyed_put key j k v later before q =
    or_stats-ite later before v (ConnKey-discrete j k)
    ∙ ap (λ o. or_stats (or_stats later (is_keyed o k v)) before) (sym q)

long_key : (s : GoString) (k : ConnKey) → conn_key_of_bytes s ≡ ok k → 8 ≤ length s
long_key s k q = elim (dec_lt (length s) 8) [
  | yes short ↦ absurd (no_key s k short q)
  | no long ↦ omega arith
]

collect_stats-last :
    (entries : List (GoString × Stats)) (acc out : GoMap ConnKey Stats)
    → collect_stats entries acc ≡ ok out
    → AllKeyed entries
      × ((k : ConnKey)
          → get ConnKey-discrete out k
            ≡ or_stats (last_keyed entries k) (get ConnKey-discrete acc k))
unfolding collect_stats
collect_stats-last [] acc out e =
    (tt, λ k. ap (λ m. get ConnKey-discrete m k) (sym (ok-injective e)))
collect_stats-last ((key, v) ∷ entries) acc out e =
    let (j, q, rest) =
      >>=-eq-ok (conn_key_of_bytes key) (λ i. collect_stats entries (put ConnKey-discrete acc i v))
        e in
    let (all, at) = collect_stats-last entries _ out rest in
    (
      (long_key key j q, all),
      λ k.
          at k
          ∙ ap (or_stats (last_keyed entries k)) (get-put ConnKey-discrete acc j k v)
          ∙ keyed_put key j k v (last_keyed entries k) (get ConnKey-discrete acc k)
              (key_in-conn_key_of_bytes key j q),
    )

module _ (b : Bpf) where
  -- A slot that has been read and cleaned.
  pub record Taken (w w' : Kernel b) (stats_key : ℕ) (out : GoMap ConnKey Stats) : Type 0 where
    pub fd : ℕ
    pub is_slot : found (b.outer.lookup w.stats_map stats_key) ≡ some fd
    pub keyed : AllKeyed (b.inner.iterate (w.inner_maps fd)).0
    pub counts :
        (k : ConnKey)
        → get ConnKey-discrete out k ≡ last_keyed (b.inner.iterate (w.inner_maps fd)).0 k
    pub same_slots : w'.stats_map ≡ w.stats_map
    pub empty : (key : GoString) → found (b.inner.lookup (w'.inner_maps fd) key) ≡ none
    pub others : (j : ℕ) → fd ≢ j → w'.inner_maps j ≡ w.inner_maps j

  or_nothing : (o : Option Stats) (k : ConnKey) → or_stats o (get ConnKey-discrete [] k) ≡ o
  unfolding get
  or_nothing none k = refl
  or_nothing (some v) k = refl

  -- When getOldestStatsAndCleanup succeeds, its slot holds a map, each key of which has two
  -- addresses: it returns for each ConnKey the counts of the last entry whose key reads as that
  -- one, with its first four bytes and the next four as dotted addresses and the rest up to the
  -- first zero as the SNI, and none for a ConnKey of no entry. That map is left empty, and no
  -- other map and no slot has changed.
  pub get_oldest-Taken :
      (w : Kernel b) (stats_key : ℕ) (out : GoMap ConnKey Stats)
      → (get_oldest_stats_and_cleanup b w stats_key).1 ≡ ok out
      → Taken w (get_oldest_stats_and_cleanup b w stats_key).0 stats_key out
  get_oldest-Taken w stats_key out e =
      let (fd, c) = get_oldest-Cleaned b w stats_key out e in
      let (keyed, counts) =
        collect_stats-last (b.inner.iterate (w.inner_maps fd)).0 [] out c.collected in
      record {
        fd = fd;
        is_slot = c.is_slot;
        keyed = keyed;
        counts = λ k. counts k ∙ or_nothing (last_keyed (b.inner.iterate (w.inner_maps fd)).0 k) k;
        same_slots = c.same_slots;
        empty = c.empty;
        others = c.others;
      }
