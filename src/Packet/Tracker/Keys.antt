-- ===== src/Packet/Tracker/Keys.antt =====
-- The set of keys of a tick, as a list.
use mathlib.Core.List.{
  Nodup, Mem, Perm, mem-cons, not-mem-nil, Nodup-nil, Nodup-cons, append_assoc, append-nil,
}
use mathlib.Core.List.Perm
use mathlib.Core.Logic.Or
use connectivity_exporter.Prelude.{◌≡◌, ◌≢◌, refl, sym, ap, ◌∙◌, arith, List, [], ◌∷◌, ◌++◌, none}
use connectivity_exporter.Prelude.GoMap.{GoMap, get, put, get-put, IsMap, put-IsMap, keys}
use connectivity_exporter.Prelude.Results.{ok-injective, ok, >>=-eq-ok}
use connectivity_exporter.Packet.Connection.{ConnKey, ConnKey-discrete}
use connectivity_exporter.Packet.Bytes.Addresses.{conn_key_of_bytes}
use connectivity_exporter.Prelude.GoString.{GoString}
use connectivity_exporter.Packet.Ebpf.{Stats}
use connectivity_exporter.Packet.Tracker.{add_stats_keys, collect_stats}

abbrev pub NotIn : ConnKey → List ConnKey → Type 0
NotIn k [] = Unit
NotIn k (j ∷ ks) = (k ≢ j) × NotIn k ks

abbrev pub Distinct : List ConnKey → Type 0
Distinct [] = Unit
Distinct (k ∷ ks) = NotIn k ks × Distinct ks

NotIn-of_not-mem : (k : ConnKey) (ks : List ConnKey) → ¬ Mem k ks → NotIn k ks
NotIn-of_not-mem k [] n = tt
NotIn-of_not-mem k (j ∷ ks) n =
    (λ e. n (mem-cons.1 (Or.inl e)), NotIn-of_not-mem k ks (λ m. n (mem-cons.1 (Or.inr m))))

pub not-mem-of_NotIn : (k : ConnKey) (ks : List ConnKey) → NotIn k ks → ¬ Mem k ks
not-mem-of_NotIn k [] n m = not-mem-nil m
not-mem-of_NotIn k (j ∷ ks) n m =
    Or.elim (λ x y. absurd x) (mem-cons.0 m) n.0 (not-mem-of_NotIn k ks n.1)

Distinct-of_Nodup : (ks : List ConnKey) → Nodup ks → Distinct ks
Distinct-of_Nodup [] d = tt
Distinct-of_Nodup (k ∷ ks) d =
    (NotIn-of_not-mem k ks (Nodup-cons.0 d).0, Distinct-of_Nodup ks (Nodup-cons.0 d).1)

Nodup-of_Distinct : (ks : List ConnKey) → Distinct ks → Nodup ks
Nodup-of_Distinct [] d = Nodup-nil
Nodup-of_Distinct (k ∷ ks) d = Nodup-cons.1 (not-mem-of_NotIn k ks d.0, Nodup-of_Distinct ks d.1)

-- A rearrangement of distinct keys is distinct, and misses what they miss.
pub Perm-Distinct : {ks js : List ConnKey} → Perm ks js → Distinct ks → Distinct js
Perm-Distinct {ks} {js} p d = Distinct-of_Nodup js (Perm.nodup p (Nodup-of_Distinct ks d))

pub Perm-NotIn : {ks js : List ConnKey} (k : ConnKey) → Perm ks js → NotIn k ks → NotIn k js
Perm-NotIn {ks} {js} k p n =
    NotIn-of_not-mem k js (λ m. not-mem-of_NotIn k ks n (Perm.subset (Perm.symm p) k m))

module _ {V : Type 0} where
  pub NotIn-of_get :
      (m : GoMap ConnKey V) (k : ConnKey) → get ConnKey-discrete m k ≡ none → NotIn k (keys m)
  unfolding get
  NotIn-of_get [] k h = tt
  NotIn-of_get ((j, v) ∷ m) k h = ground (arith, NotIn-of_get m k)

  pub IsMap-Distinct : (m : GoMap ConnKey V) → IsMap ConnKey-discrete m → Distinct (keys m)
  IsMap-Distinct [] h = tt
  IsMap-Distinct ((k, v) ∷ m) h = (NotIn-of_get m k h.0, IsMap-Distinct m h.1)

  keys-put_new :
      (m : GoMap ConnKey V) (k : ConnKey) (v : V)
      → get ConnKey-discrete m k ≡ none
      → keys (put ConnKey-discrete m k v) ≡ keys m ++ k ∷ []
  unfolding get put
  keys-put_new [] k v h = refl
  keys-put_new ((j, w) ∷ m) k v h = ground (arith, keys-put_new m k v)

-- No key of the first map is in the second.
abbrev AllNew : GoMap ConnKey Stats → GoMap ConnKey (Unit {0}) → Type 0
AllNew [] set = Unit
AllNew ((k, v) ∷ stats) set = (get ConnKey-discrete set k ≡ none) × AllNew stats set

AllNew-put :
    (stats : GoMap ConnKey Stats) (set : GoMap ConnKey (Unit {0})) (k : ConnKey)
    → NotIn k (keys stats)
    → AllNew stats set
    → AllNew stats (put ConnKey-discrete set k tt)
AllNew-put [] set k n new = tt
AllNew-put ((j, v) ∷ stats) set k n new =
    (ground (arith, get-put ConnKey-discrete set k j tt), AllNew-put stats set k n.1 new.1)

keys-add_stats_keys :
    (stats : GoMap ConnKey Stats) (set : GoMap ConnKey (Unit {0}))
    → IsMap ConnKey-discrete stats
    → AllNew stats set
    → keys (add_stats_keys stats set) ≡ keys set ++ keys stats
unfolding add_stats_keys
keys-add_stats_keys [] set h new = sym (append-nil (keys set))
keys-add_stats_keys ((k, v) ∷ stats) set h new =
    keys-add_stats_keys stats (put ConnKey-discrete set k tt) h.1
      (AllNew-put stats set k (NotIn-of_get stats k h.0) new.1)
    ∙ ap (λ ks. ks ++ keys stats) (keys-put_new set k tt new.0)
    ∙ append_assoc (keys set) (k ∷ []) (keys stats)

AllNew-nil : (stats : GoMap ConnKey Stats) → AllNew stats []
unfolding get
AllNew-nil [] = tt
AllNew-nil ((k, v) ∷ stats) = (refl, AllNew-nil stats)

-- With no old connection the set is the keys of the statistics, each once.
pub keys-stats_keys :
    (stats : GoMap ConnKey Stats)
    → IsMap ConnKey-discrete stats
    → keys (add_stats_keys stats []) ≡ keys stats
keys-stats_keys stats h = keys-add_stats_keys stats [] h (AllNew-nil stats)

-- The statistics that are collected are a map.
pub collect_stats-IsMap :
    (entries : List (GoString × Stats)) (acc out : GoMap ConnKey Stats)
    → IsMap ConnKey-discrete acc
    → collect_stats entries acc ≡ ok out
    → IsMap ConnKey-discrete out
unfolding collect_stats
collect_stats-IsMap [] acc out h e = rw (ok-injective e) at h
collect_stats-IsMap ((k, v) ∷ entries) acc out h e =
    let (key, q, more) =
      >>=-eq-ok (conn_key_of_bytes k)
        (λ key. collect_stats entries (put ConnKey-discrete acc key v)) e in
    collect_stats-IsMap entries (put ConnKey-discrete acc key v) out
      (put-IsMap ConnKey-discrete acc key v h) more
