-- ===== src/Packet/Tracker/Judged.antt =====
-- The last loop of a tick, key by key.
use connectivity_exporter.Prelude.{
  ℕ, ◌≡◌, ◌≢◌, refl, ap, ap₂, ◌∙◌, arith, Bool, false, List, [], ◌∷◌, Option, none, some, ite, map,
}
use connectivity_exporter.Prelude.GoMap.{GoMap, get, get-put}
use connectivity_exporter.Metrics.Inc.{Inc}
use connectivity_exporter.Packet.Connection.{ConnKey, ConnKey-discrete, TupleData}
use connectivity_exporter.Packet.Account.{State, account_for_connections}
use connectivity_exporter.Packet.Ebpf.{Stats}
use connectivity_exporter.Packet.Tracker.Keys.{NotIn, Distinct}
use connectivity_exporter.Packet.Tracker.{get_or, account_key, account_keys, ensure_previous}

-- What `accountForConnections` says of one key, whatever the time and the state.
abbrev pub judged : ConnKey → Bool → List TupleData → Stats → Inc × Bool
judged k previous stale v =
    let (s, inc, failed_second) =
      account_for_connections 0 (record { snis = [] }) k previous stale v.0 v.1 in
    (inc, failed_second)

ensure_previous_lem :
    (k j : ConnKey) (previous : GoMap ConnKey Bool)
    → (get_or ConnKey-discrete (ensure_previous k previous) k false
        ≡ get_or ConnKey-discrete previous k false)
      × (get ConnKey-discrete (ensure_previous k previous) j
          ≡ ite
              (ConnKey-discrete k j)
              (some (get_or ConnKey-discrete previous k false))
              (get ConnKey-discrete previous j))
unfolding ensure_previous
ensure_previous_lem k j previous = ground (
  arith,
  get-put ConnKey-discrete previous k k false,
  get-put ConnKey-discrete previous k j false,
)

judged-account :
    (now : ℕ) (s : State) (k : ConnKey) (previous : Bool) (stale : List TupleData) (v : Stats)
    → (account_for_connections now s k previous stale v.0 v.1).1 ≡ (judged k previous stale v).0
unfolding account_for_connections
judged-account now s k previous stale v = refl

judged-failed_second :
    (now : ℕ) (s : State) (k : ConnKey) (previous : Bool) (stale : List TupleData) (v : Stats)
    → (account_for_connections now s k previous stale v.0 v.1).2 ≡ (judged k previous stale v).1
unfolding account_for_connections
judged-failed_second now s k previous stale v = refl

ite_override :
    (k j : ConnKey) (a c : Bool) (o : Option Bool)
    → ite (ConnKey-discrete k j) (some a) (ite (ConnKey-discrete k j) (some c) o)
      ≡ ite (ConnKey-discrete k j) (some a) o
ite_override k j a c o = ground arith

abbrev pub or_false : Option Bool → Bool
or_false o = elim o [ none ↦ false | some v ↦ v ]

module _ (now_at : ConnKey → ℕ) (stats : GoMap ConnKey Stats)
    (stale : GoMap ConnKey (List TupleData)) where
  -- The verdict on a key, from the map of the previous tick.
  abbrev pub verdict_of : GoMap ConnKey Bool → ConnKey → Inc × Bool
  verdict_of previous k =
      judged k (get_or ConnKey-discrete previous k false) (get_or ConnKey-discrete stale k [])
        (get_or ConnKey-discrete stats k (0, 0))

  abbrev pub verdict_with : ConnKey → Bool → Inc × Bool
  verdict_with k p =
      judged k p (get_or ConnKey-discrete stale k []) (get_or ConnKey-discrete stats k (0, 0))

  pub inc-account_key :
      (k : ConnKey) (s : State) (previous : GoMap ConnKey Bool)
      → (account_key now_at stats stale k (s, previous)).2 ≡ (verdict_of previous k).0
  unfolding account_key
  inc-account_key k s previous =
      judged-account (now_at k) s k _ _ _
      ∙ ap (λ p. (verdict_with k p).0) (ensure_previous_lem k k previous).0

  pub previous-account_key :
      (k j : ConnKey) (s : State) (previous : GoMap ConnKey Bool)
      → get ConnKey-discrete (account_key now_at stats stale k (s, previous)).1 j
        ≡ ite
            (ConnKey-discrete k j)
            (some (verdict_of previous k).1)
            (get ConnKey-discrete previous j)
  unfolding account_key
  previous-account_key k j s previous =
      rw
        (
          get-put,
          judged-failed_second,
          (ensure_previous_lem k j previous).0,
          (ensure_previous_lem k j previous).1,
        )
        (ite_override k j (verdict_of previous k).1 _ (get ConnKey-discrete previous j))

  verdicts-same :
      (k : ConnKey) (ks : List ConnKey) (p q : GoMap ConnKey Bool)
      → NotIn k ks
      → ((j : ConnKey) → k ≢ j → get ConnKey-discrete q j ≡ get ConnKey-discrete p j)
      → map (λ j. (verdict_of q j).0) ks ≡ map (λ j. (verdict_of p j).0) ks
  verdicts-same k [] p q n same = refl
  verdicts-same k (j ∷ ks) p q n same =
      ap₂ ◌∷◌ (ap (λ o. (verdict_with j (or_false o)).0) (same j n.0))
        (verdicts-same k ks p q n.1 same)

  -- Over distinct keys, whatever their order, each key is judged by the map of the previous tick.
  pub account_keys_lem :
      (ks : List ConnKey) (s : State) (previous : GoMap ConnKey Bool)
      → Distinct ks
      → (account_keys now_at stats stale ks (s, previous)).2
        ≡ map (λ k. (verdict_of previous k).0) ks
  unfolding account_keys
  account_keys_lem [] s previous d = refl
  account_keys_lem (k ∷ ks) s previous d =
      let after = account_key now_at stats stale k (s, previous) in
      ap₂ ◌∷◌ (inc-account_key k s previous) (
        account_keys_lem ks after.0 after.1 d.1
        ∙ verdicts-same k ks previous after.1 d.0
            (λ j ne. ground (arith, previous-account_key k j s previous)))

  -- Afterwards the keys that were judged hold their verdict, and the others what they held.
  pub previous-account_keys :
      (ks : List ConnKey) (j : ConnKey) (s : State) (previous : GoMap ConnKey Bool)
      → NotIn j ks
      → get ConnKey-discrete (account_keys now_at stats stale ks (s, previous)).1 j
        ≡ get ConnKey-discrete previous j
  unfolding account_keys
  previous-account_keys [] j s previous n = refl
  previous-account_keys (k ∷ ks) j s previous n =
      let after = account_key now_at stats stale k (s, previous) in
      previous-account_keys ks j after.0 after.1 n.1
      ∙ ground (arith, previous-account_key k j s previous)
