-- ===== src/Packet/Tracker/Remembered.antt =====
-- What a tick of `TrackConnections` remembers for the next: the times of the SNIs and the verdicts.
use mathlib.Core.List.{Mem, mem-cons, not-mem-nil}
use mathlib.Core.Logic.Or
use connectivity_exporter.Prelude.{
  ℕ, ◌≡◌, ◌≢◌, refl, sym, subst, ap, ◌∙◌, arith, Bool, false, List, [], ◌∷◌, Option, none, some,
  ite,
}
use connectivity_exporter.Prelude.GoMap.{GoMap, get, get-put, IsMap, put-IsMap}
use connectivity_exporter.Prelude.GoString.{GoString, GoString-discrete}
use connectivity_exporter.Packet.Account.{State, first_seen, account_for_connections}
use connectivity_exporter.Packet.Account.Expiry.{first_seen-IsMap}
use connectivity_exporter.Packet.Connection.{ConnKey, ConnKey-discrete, TupleData}
use connectivity_exporter.Packet.Ebpf.{Stats}
use connectivity_exporter.Packet.Tracker.Judged.{
  verdict_of, verdict_with, or_false, previous-account_key, previous-account_keys,
}
use connectivity_exporter.Packet.Tracker.Keys.{NotIn, Distinct}
use connectivity_exporter.Packet.Tracker.{account_key, account_keys, ensure_previous}

abbrev pub or_else : Option ℕ → Option ℕ → Option ℕ
or_else (some t) o = some t
or_else none o = o

-- The time that is read for the first of the keys with an SNI.
abbrev pub first_time : (ConnKey → ℕ) → List ConnKey → GoString → Option ℕ
first_time now_at [] sni = none
first_time now_at (k ∷ ks) sni =
    ite (GoString-discrete k.sni sni) (some (now_at k)) (first_time now_at ks sni)

get-first_seen :
    (name sni : GoString) (now : ℕ) (s : State)
    → get GoString-discrete (first_seen name now s).snis sni
      ≡ or_else
          (get GoString-discrete s.snis sni)
          (ite (GoString-discrete name sni) (some now) none)
unfolding first_seen
get-first_seen name sni now s = ground (arith, get-put GoString-discrete s.snis name sni now)

or_else-ite :
    (o rest : Option ℕ) (t : ℕ) {A : Type 0} (d : Dec A)
    → or_else (or_else o (ite d (some t) none)) rest ≡ or_else o (ite d (some t) rest)
or_else-ite none rest t (yes p) = refl
or_else-ite none rest t (no n) = refl
or_else-ite (some u) rest t d = refl

module _ (now_at : ConnKey → ℕ) (stats : GoMap ConnKey Stats)
    (stale : GoMap ConnKey (List TupleData)) where
  state-account_key :
      (k : ConnKey) (s : State) (previous : GoMap ConnKey Bool)
      → (account_key now_at stats stale k (s, previous)).0 ≡ first_seen k.sni (now_at k) s
  unfolding account_key account_for_connections
  state-account_key k s previous = refl

  pub get-account_keys :
      (ks : List ConnKey) (s : State) (previous : GoMap ConnKey Bool) (sni : GoString)
      → get GoString-discrete (account_keys now_at stats stale ks (s, previous)).0.snis sni
        ≡ or_else (get GoString-discrete s.snis sni) (first_time now_at ks sni)
  unfolding account_keys
  get-account_keys [] s previous sni = by_value (get GoString-discrete s.snis sni)
    where
      by_value : (o : Option ℕ) → o ≡ or_else o none
      by_value none = refl
      by_value (some t) = refl
  get-account_keys (k ∷ ks) s previous sni =
      let after = account_key now_at stats stale k (s, previous) in
      get-account_keys ks after.0 after.1 sni
      ∙ ap (λ s1. or_else (get GoString-discrete s1.snis sni) (first_time now_at ks sni))
          (state-account_key k s previous)
      ∙ ap (λ o. or_else o (first_time now_at ks sni)) (get-first_seen k.sni sni (now_at k) s)
      ∙ or_else-ite (get GoString-discrete s.snis sni) (first_time now_at ks sni) (now_at k)
          (GoString-discrete k.sni sni)

  -- The maps of the goroutine hold each key once.
  pub account_keys-IsMap :
      (ks : List ConnKey) (s : State) (previous : GoMap ConnKey Bool)
      → IsMap GoString-discrete s.snis
      → IsMap ConnKey-discrete previous
      → IsMap GoString-discrete (account_keys now_at stats stale ks (s, previous)).0.snis
        × IsMap ConnKey-discrete (account_keys now_at stats stale ks (s, previous)).1
  unfolding account_keys account_key ensure_previous account_for_connections
  account_keys-IsMap [] s previous h p = (h, p)
  account_keys-IsMap (k ∷ ks) s previous h p =
      account_keys-IsMap ks _ _ (first_seen-IsMap k.sni (now_at k) s h)
        (put-IsMap ConnKey-discrete _ k _ (ensured k previous p))
    where
      ensured :
          (k : ConnKey) (previous : GoMap ConnKey Bool)
          → IsMap ConnKey-discrete previous
          → IsMap ConnKey-discrete (ensure_previous k previous)
      ensured k previous p = ground (arith, put-IsMap ConnKey-discrete previous k false p)

  pub verdict_of-same :
      (k : ConnKey) (p q : GoMap ConnKey Bool)
      → get ConnKey-discrete q k ≡ get ConnKey-discrete p k
      → verdict_of now_at stats stale q k ≡ verdict_of now_at stats stale p k
  verdict_of-same k p q e = ap (λ o. verdict_with now_at stats stale k (or_false o)) e

  -- Over distinct keys, each ends with its verdict by the map of the previous tick.
  pub seen-account_keys :
      (ks : List ConnKey) (j : ConnKey) (s : State) (previous : GoMap ConnKey Bool)
      → Distinct ks
      → Mem j ks
      → get ConnKey-discrete (account_keys now_at stats stale ks (s, previous)).1 j
        ≡ some (verdict_of now_at stats stale previous j).1
  unfolding account_keys
  seen-account_keys [] j s previous d m = absurd (not-mem-nil m)
  seen-account_keys (k ∷ ks) j s previous d m =
      let after = account_key now_at stats stale k (s, previous) in
      elim (ConnKey-discrete k j) [
        | yes e ↦
            previous-account_keys now_at stats stale ks j after.0 after.1
              (subst (λ i. NotIn i ks) e d.0)
            ∙ ground (arith, previous-account_key now_at stats stale k j s previous)
            ∙ ap (λ i. some (verdict_of now_at stats stale previous i).1) e
        | no ne ↦
            seen-account_keys ks j after.0 after.1 d.1 (later ne m)
            ∙ ap (λ v. some v.1)
                (verdict_of-same j previous after.1
                  (ground (arith, previous-account_key now_at stats stale k j s previous)))
      ]
    where
      later : k ≢ j → Mem j (k ∷ ks) → Mem j ks
      later ne m = Or.elim (λ x y. hlevel) (mem-cons.0 m) (λ e. absurd (ne (sym e))) (λ t. t)
