-- ===== src/Metrics/Apply/Kinds.antt =====
-- What `apply` of connectivity-exporter/metrics does to the counters, kind by kind.
use connectivity_exporter.Prelude.{
  ℕ, ◌≡◌, ◌≢◌, refl, ap, sum, ◌∙◌, arith, [], ◌∷◌, Bool, true, false, ◌⊎◌, inl, inr,
}
use connectivity_exporter.Prelude.GoString.{GoString, bytes}
use connectivity_exporter.Prelude.Results.{Outcome, ok, panic}
use connectivity_exporter.Metrics.Inc.{Inc}
use connectivity_exporter.Metrics.CounterVec.{CounterVec, Labels, or_zero, all_text, is_ascii}
use connectivity_exporter.Metrics.Apply.Additions.{
  raise, Added, add3, first_added, second_added, third_added,
}
use connectivity_exporter.Metrics.Apply.{Counters, labels, apply, apply_seconds, apply_connections}

-- The kinds of seconds and of connections that are counted, with their label and their field.
pub data Kind : Type 0 where
  active failed active_failed : Kind

abbrev pub label : Kind → GoString
label active = bytes "active"
label failed = bytes "failed"
label active_failed = bytes "active_failed"

abbrev pub amount : Kind → Inc → ℕ
amount active inc = inc.active_seconds
amount failed inc = inc.failed_seconds
amount active_failed inc = inc.active_failed_seconds

pub data ConnKind : Type 0 where
  successful rejected rejected_by_client : ConnKind

abbrev pub conn_label : ConnKind → GoString
conn_label successful = bytes "successful"
conn_label rejected = bytes "rejected"
conn_label rejected_by_client = bytes "rejected_by_client"

abbrev pub conn_amount : ConnKind → Inc → ℕ
conn_amount successful inc = inc.successful_connections
conn_amount rejected inc = inc.rejected_connections
conn_amount rejected_by_client inc = inc.rejected_connections_by_client

module _ (C : CounterVec) where
  open C use {Vec, value}

  -- What a scrape reads of one counter.
  abbrev pub reading : Vec → Labels → ℕ
  reading v ls = or_zero (value v ls)

-- The labels of an increment after its kind.
abbrev pub key_of : Inc → Labels
key_of inc = inc.sni ∷ inc.source_ip ∷ inc.dest_ip ∷ []

-- They are valid UTF-8.
abbrev pub has_text : CounterVec → Inc → Bool
has_text C inc = all_text C.is_text (key_of inc)

-- Both vectors were made with the four labels of types.go.
pub record IsValid (C : CounterVec) (m : Counters C) : Type 0 where
  pub seconds_labels : C.label_count m.seconds ≡ 4
  pub connections_labels : C.label_count m.connections ≡ 4

abbrev digest : GoString → ℕ
digest = sum

label-injective : (j k : Kind) → j ≢ k → label j ≢ label k
label-injective active active n e = n refl
label-injective failed failed n e = n refl
label-injective active_failed active_failed n e = n refl
label-injective active failed n e = omega (arith, ap digest e)
label-injective active active_failed n e = omega (arith, ap digest e)
label-injective failed active n e = omega (arith, ap digest e)
label-injective failed active_failed n e = omega (arith, ap digest e)
label-injective active_failed active n e = omega (arith, ap digest e)
label-injective active_failed failed n e = omega (arith, ap digest e)

conn_label-injective : (j k : ConnKind) → j ≢ k → conn_label j ≢ conn_label k
conn_label-injective successful successful n e = n refl
conn_label-injective rejected rejected n e = n refl
conn_label-injective rejected_by_client rejected_by_client n e = n refl
conn_label-injective successful rejected n e = omega (arith, ap digest e)
conn_label-injective successful rejected_by_client n e = omega (arith, ap digest e)
conn_label-injective rejected successful n e = omega (arith, ap digest e)
conn_label-injective rejected rejected_by_client n e = omega (arith, ap digest e)
conn_label-injective rejected_by_client successful n e = omega (arith, ap digest e)
conn_label-injective rejected_by_client rejected n e = omega (arith, ap digest e)

-- `apply` succeeded, and added the increment's fields to the counters of its own key alone.
pub record Applied (C : CounterVec) (inc : Inc) (m : Counters C) (r : Outcome (Counters C))
    : Type 0 where
  pub after : Counters C
  pub returns : r ≡ ok after
  pub valid : IsValid C after
  pub seconds_at :
      (k : Kind) (key : Labels)
      → reading C after.seconds (label k ∷ key)
        ≡ raise C (key_of inc) key (amount k inc) (reading C m.seconds (label k ∷ key))
  pub connections_at :
      (k : ConnKind) (key : Labels)
      → reading C after.connections (conn_label k ∷ key)
        ≡ raise C
            (key_of inc)
            key
            (conn_amount k inc)
            (reading C m.connections (conn_label k ∷ key))

-- A kind is ASCII.
kind_text :
    (C : CounterVec) (kind : GoString) (inc : Inc)
    → is_ascii kind ≡ true
    → has_text C inc ≡ true
    → all_text C.is_text (labels kind inc) ≡ true
kind_text C kind inc ascii text = rw (C.is_text-ascii kind ascii) text

pub apply-Applied :
    (C : CounterVec) (inc : Inc) (m : Counters C)
    → IsValid C m
    → has_text C inc ≡ true
    → Applied C inc m (apply C inc m)
unfolding apply
apply-Applied C inc m valid text = record {
  after = record { seconds = s.after; connections = c.after };
  returns = rw (s.returns, c.returns);
  valid = ground arith;
  seconds_at = seconds_at;
  connections_at = connections_at;
}
  where
    own : Labels
    own = key_of inc

    s :
        Added C m.seconds
          (labels (bytes "active") inc)
          (labels (bytes "failed") inc)
          (labels (bytes "active_failed") inc)
          inc.active_seconds
          inc.failed_seconds
          inc.active_failed_seconds
          (apply_seconds C inc m.seconds)
    s =
        add3 C m.seconds _ _ _ _ _ _ (omega arith) (omega arith) (omega arith)
          (kind_text C _ inc refl text) (kind_text C _ inc refl text) (kind_text C _ inc refl text)

    c :
        Added C m.connections
          (labels (bytes "successful") inc)
          (labels (bytes "rejected") inc)
          (labels (bytes "rejected_by_client") inc)
          inc.successful_connections
          inc.rejected_connections
          inc.rejected_connections_by_client
          (apply_connections C inc m.connections)
    c =
        add3 C m.connections _ _ _ _ _ _ (omega arith) (omega arith) (omega arith)
          (kind_text C _ inc refl text) (kind_text C _ inc refl text) (kind_text C _ inc refl text)

    seconds_at :
        (k : Kind) (key : Labels)
        → reading C s.after (label k ∷ key)
          ≡ raise C own key (amount k inc) (reading C m.seconds (label k ∷ key))
    seconds_at active key =
        ap or_zero (s.at (label active ∷ key))
        ∙ first_added C key own _ _ _ _ _ _ (C.value m.seconds)
            (label-injective failed active (λ e. cc))
            (label-injective active_failed active (λ e. cc))
    seconds_at failed key =
        ap or_zero (s.at (label failed ∷ key))
        ∙ second_added C key own _ _ _ _ _ _ (C.value m.seconds)
            (label-injective active failed (λ e. cc))
            (label-injective active_failed failed (λ e. cc))
    seconds_at active_failed key =
        ap or_zero (s.at (label active_failed ∷ key))
        ∙ third_added C key own _ _ _ _ _ _ (C.value m.seconds)
            (label-injective active active_failed (λ e. cc))
            (label-injective failed active_failed (λ e. cc))

    connections_at :
        (k : ConnKind) (key : Labels)
        → reading C c.after (conn_label k ∷ key)
          ≡ raise C own key (conn_amount k inc) (reading C m.connections (conn_label k ∷ key))
    connections_at successful key =
        ap or_zero (c.at (conn_label successful ∷ key))
        ∙ first_added C key own _ _ _ _ _ _ (C.value m.connections)
            (conn_label-injective rejected successful (λ e. cc))
            (conn_label-injective rejected_by_client successful (λ e. cc))
    connections_at rejected key =
        ap or_zero (c.at (conn_label rejected ∷ key))
        ∙ second_added C key own _ _ _ _ _ _ (C.value m.connections)
            (conn_label-injective successful rejected (λ e. cc))
            (conn_label-injective rejected_by_client rejected (λ e. cc))
    connections_at rejected_by_client key =
        ap or_zero (c.at (conn_label rejected_by_client ∷ key))
        ∙ third_added C key own _ _ _ _ _ _ (C.value m.connections)
            (conn_label-injective successful rejected_by_client (λ e. cc))
            (conn_label-injective rejected rejected_by_client (λ e. cc))

pub apply_panic :
    (C : CounterVec) (inc : Inc) (m : Counters C)
    → IsValid C m
    → has_text C inc ≡ false
    → apply C inc m ≡ panic
unfolding apply apply_seconds
apply_panic C inc m valid text =
    let bad : all_text C.is_text (labels (bytes "active") inc) ≡ false =
      rw (C.is_text-ascii (bytes "active") refl) text in
    rw (C.add_panic m.seconds (labels (bytes "active") inc) inc.active_seconds bad) refl

-- On counters made with four labels, if the SNI and the two addresses of the increment are valid
-- UTF-8 then apply does not panic: of every key and kind it adds the increment's field where the
-- key is the increment's, and leaves the counter as it was elsewhere. If one of them is not, then
-- it panics.
pub apply_lem :
    (C : CounterVec) (inc : Inc) (m : Counters C)
    → IsValid C m
    → ((has_text C inc ≡ true) × Applied C inc m (apply C inc m))
      ⊎ ((has_text C inc ≡ false) × (apply C inc m ≡ panic))
apply_lem C inc m valid = by_text (has_text C inc) refl
  where
    by_text :
        (t : Bool)
        → has_text C inc ≡ t
        → ((has_text C inc ≡ true) × Applied C inc m (apply C inc m))
          ⊎ ((has_text C inc ≡ false) × (apply C inc m ≡ panic))
    by_text true e = inl (e, apply-Applied C inc m valid e)
    by_text false e = inr (e, apply_panic C inc m valid e)
