-- ===== src/Packet/Slots/Filled.antt =====
-- The slots after `initStatsMap` of packet/bpf.go.
use connectivity_exporter.Prelude.{
  ℕ, zero, suc, ◌+◌, ◌%◌, ◌≤◌, ◌<◌, ◌≡◌, refl, subst, ◌∙◌, arith, Option, none, some, ℕ_discrete,
}
use connectivity_exporter.Prelude.Results.{Error, Reply, value, failure, found}
use connectivity_exporter.Packet.Ebpf.{Bpf}
use connectivity_exporter.Packet.Slots.{NewMap, fill_slots, init_stats_map}

module _ (b : Bpf) where
  -- The slots from `clock` on are filled; those before are as they were.
  record Filled (new_map : NewMap) (left clock : ℕ) (m after : b.outer.Map) : Type 0 where
    filled :
        (j : ℕ)
        → clock ≤ j
        → j < clock + left
        → (fd : ℕ) × (new_map j ≡ value fd) × (found (b.outer.lookup after j) ≡ some fd)
    before : (j : ℕ) → j < clock → found (b.outer.lookup after j) ≡ found (b.outer.lookup m j)

  put_slot :
      (m : b.outer.Map) (clock fd : ℕ)
      → (b.outer.put m clock fd).1 ≡ none
      → found (b.outer.lookup (b.outer.put m clock fd).0 clock) ≡ some fd
  put_slot m clock fd e = ground (arith, b.outer.lookup-put m clock clock fd e)

  put_other :
      (m : b.outer.Map) (clock fd j : ℕ)
      → (b.outer.put m clock fd).1 ≡ none
      → j < clock
      → found (b.outer.lookup (b.outer.put m clock fd).0 j) ≡ found (b.outer.lookup m j)
  put_other m clock fd j e lt = ground (arith, b.outer.lookup-put m clock j fd e)

  -- A step of the loop that does not fail.
  Step : NewMap → ℕ → ℕ → b.outer.Map → Type 0
  Step new_map left clock m =
      (fd : ℕ) × (new_map clock ≡ value fd)
      × ((b.outer.put m clock fd).1 ≡ none)
      × (fill_slots b new_map (suc left) clock m
          ≡ fill_slots b new_map left (clock + 1) (b.outer.put m clock fd).0)

  fill_slots-Step :
      (new_map : NewMap) (left clock : ℕ) (m : b.outer.Map)
      → (fill_slots b new_map (suc left) clock m).1 ≡ none
      → Step new_map left clock m
  unfolding fill_slots Step
  fill_slots-Step new_map left clock m h = by_map (new_map clock) refl
    where
      by_put :
          (fd : ℕ)
          → new_map clock ≡ value fd
          → (e : Option Error) → (b.outer.put m clock fd).1 ≡ e
          → Step new_map left clock m
      by_put fd q none e = (fd, q, e, rw (fill_slots, q, e))
      by_put fd q (some x) e = absurd (cc (rw (fill_slots, q, e) at h))

      by_map : (r : Reply ℕ) → new_map clock ≡ r → Step new_map left clock m
      by_map (failure x) q = absurd (cc (rw (fill_slots, q) at h))
      by_map (value fd) q = by_put fd q (b.outer.put m clock fd).1 refl

  fill_slots-Filled :
      (new_map : NewMap) (left clock : ℕ) (m : b.outer.Map)
      → (fill_slots b new_map left clock m).1 ≡ none
      → Filled new_map left clock m (fill_slots b new_map left clock m).0
  unfolding fill_slots Step
  fill_slots-Filled new_map zero clock m h = record {
    filled = λ j ge lt. absurd (omega arith);
    before = λ j lt. refl;
  }
  fill_slots-Filled new_map (suc left) clock m h =
      let (fd, made, put, rest) = fill_slots-Step new_map left clock m h in
      let later =
        fill_slots-Filled new_map left (clock + 1) (b.outer.put m clock fd).0 (rw rest at h) in
      rw rest (record {
        filled = λ j ge lt. elim (ℕ_discrete clock j) [
          | yes here ↦
              subst
                (λ i.
                  (k : ℕ) × (new_map i ≡ value k)
                  × (found (
                        b.outer.lookup
                          (fill_slots b new_map left (clock + 1) (b.outer.put m clock fd).0).0 i)
                      ≡ some k))
                here (fd, made, later.before clock (omega arith) ∙ put_slot m clock fd put)
          | no ne ↦ later.filled j (omega arith) (omega arith)
        ];
        before = λ j lt. later.before j (omega arith) ∙ put_other m clock fd j put lt;
      })

-- When `initStatsMap` succeeds, the slot of every clock holds the map that was made for it.
pub init_stats_map-filled :
    (b : Bpf) (new_map : NewMap) (m : b.outer.Map) (clock : ℕ)
    → (init_stats_map b new_map m).1 ≡ none
    → (fd : ℕ) × (new_map (clock % 20) ≡ value fd)
      × (found (b.outer.lookup (init_stats_map b new_map m).0 (clock % 20)) ≡ some fd)
unfolding init_stats_map
init_stats_map-filled b new_map m clock h =
    (fill_slots-Filled b new_map 20 0 m h).filled (clock % 20) (omega arith) (omega arith)
