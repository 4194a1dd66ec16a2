-- ===== src/Metrics/CounterVec.antt =====
-- The Prometheus client's `CounterVec`, a library the program calls: its documented behaviour.
use mathlib.Core.Logic.{ite}
use connectivity_exporter.Prelude.{
  ℕ, ◌+◌, ◌^◌, ◌<◌, ◌≡◌, ◌≢◌, Bool, true, false, ◌&&◌, ltb, Option, none, some, List, [], ◌∷◌,
  length,
}
use connectivity_exporter.Prelude.GoString.{GoString, list_discrete, GoString-discrete}
use connectivity_exporter.Prelude.Results.{Outcome, ok, panic}

abbrev pub Labels : Type 0
Labels = List GoString

unfoldable pub Labels-discrete : Discrete Labels
unfolding list_discrete GoString-discrete
Labels-discrete = list_discrete GoString-discrete

-- A counter that has not been used counts as zero.
abbrev pub or_zero : Option ℕ → ℕ
or_zero none = 0
or_zero (some n) = n

-- A text of bytes below 128.
abbrev pub is_ascii : GoString → Bool
is_ascii [] = true
is_ascii (b ∷ bs) = ltb b 128 && is_ascii bs

-- Each value is one that the client takes.
abbrev pub all_text : (GoString → Bool) → Labels → Bool
all_text is_text [] = true
all_text is_text (l ∷ ls) = is_text l && all_text is_text ls

pub record CounterVec : Type 1 where
  pub Vec : Type 0
  -- NewCounterVec, with the names of the labels
  pub new_counter_vec : List GoString → Vec
  -- how many labels the vector was made with
  pub label_count : Vec → ℕ
  -- the counter at some label values, if there is one
  pub value : Vec → Labels → Option ℕ
  -- the addition of two readings, exact on small whole numbers
  pub plus : ℕ → ℕ → ℕ
  pub plus_exact : (a b : ℕ) → a + b < 2 ^ 53 → plus a b ≡ a + b
  -- `utf8.ValidString`, by which the client tests each value of a label
  pub is_text : GoString → Bool
  pub is_text-ascii : (s : GoString) → is_ascii s ≡ true → is_text s ≡ true
  -- WithLabelValues(…).Add(x)
  pub add : Vec → Labels → ℕ → Outcome Vec
  pub delete_label_values : Vec → Labels → Vec × Bool
  pub label_count-new : (names : List GoString) → label_count (new_counter_vec names) ≡ length names
  pub value-new : (names : List GoString) (ls : Labels) → value (new_counter_vec names) ls ≡ none
  -- With the right number of values, each valid UTF-8, `add` makes the counter if needed, and
  -- touches no other.
  pub add_ok :
      (v : Vec) (ls : Labels) (x : ℕ)
      → length ls ≡ label_count v
      → all_text is_text ls ≡ true
      → (w : Vec) × (add v ls x ≡ ok w)
        × (label_count w ≡ label_count v)
        × ((js : Labels)
            → value w js
              ≡ ite (Labels-discrete ls js) (some (plus (or_zero (value v ls)) x)) (value v js))
  -- On a value that is not valid UTF-8 `WithLabelValues` panics.
  pub add_panic : (v : Vec) (ls : Labels) (x : ℕ) → all_text is_text ls ≡ false → add v ls x ≡ panic
  -- An inconsistent number of values matches no counter.
  pub delete_mismatch :
      (v : Vec) (ls : Labels) → length ls ≢ label_count v → delete_label_values v ls ≡ (v, false)
