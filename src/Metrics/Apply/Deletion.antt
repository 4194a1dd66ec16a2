-- ===== src/Metrics/Apply/Deletion.antt =====
-- `DeleteMetrics` of connectivity-exporter/metrics, on the counters of types.go.
use connectivity_exporter.Prelude.{◌≡◌, ap, ap₂, ◌∙◌, arith, [], ◌∷◌}
use connectivity_exporter.Prelude.GoString.{GoString, bytes}
use connectivity_exporter.Metrics.CounterVec.{CounterVec}
use connectivity_exporter.Metrics.Apply.{Counters, delete_metrics, delete3}
use connectivity_exporter.Metrics.Apply.Kinds.{IsValid}

module _ (C : CounterVec) where
  open C use {Vec, label_count, delete_label_values, delete_mismatch}

  two_values :
      (v : Vec) (kind sni : GoString)
      → label_count v ≡ 4
      → (delete_label_values v (kind ∷ sni ∷ [])).0 ≡ v
  two_values v kind sni four =
      ap (λ r. r.0) (delete_mismatch v (kind ∷ sni ∷ []) (λ e. omega arith))

  delete3-noop :
      (v : Vec) (k1 k2 k3 sni : GoString) → label_count v ≡ 4 → delete3 C v k1 k2 k3 sni ≡ v
  delete3-noop v k1 k2 k3 sni four =
      ap (λ w. (delete_label_values (delete_label_values w (k2 ∷ sni ∷ [])).0 (k3 ∷ sni ∷ [])).0)
        (two_values v k1 sni four)
      ∙ ap (λ w. (delete_label_values w (k3 ∷ sni ∷ [])).0) (two_values v k2 sni four)
      ∙ two_values v k3 sni four

  -- On counters made with four labels, `DeleteMetrics` deletes nothing, whatever the SNI.
  pub delete_metrics-noop :
      (m : Counters C) (sni : GoString) → IsValid C m → delete_metrics C sni m ≡ m
  unfolding delete_metrics
  delete_metrics-noop m sni valid =
      ap₂ (λ s c. record { seconds = s; connections = c })
        (delete3-noop m.seconds (bytes "active") (bytes "failed") (bytes "active_failed") sni
          valid.seconds_labels)
        (delete3-noop m.connections (bytes "successful") (bytes "rejected")
          (bytes "rejected_by_client") sni valid.connections_labels)
