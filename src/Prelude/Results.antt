-- ===== src/Prelude/Results.antt =====
-- The outcome of a Go call: a value, an error value, or a run-time panic.
use mathlib.Core.Path.{◌≡◌, refl}
use mathlib.Core.Option.{Option, none, some}

-- The error values the program tells apart; `external` is an error of a library, by a number.
pub data Error : Type 0 where
  external : Prim.Native.Nat.ℕ → Error
  loading_asset : Error → Error
  creating_collection : Error → Error
  no_map : Prim.Native.Nat.ℕ → Error
  no_program : Error
  invalid_cidr_or_ip only_ipv4 invalid_port : Error
  init_cidr init_port init_stats read_histogram : Error → Error
  sni_too_long too_many_entries bucket_count_mismatch : Error

pub data Outcome {ℓ} (A : Type ℓ) : Type ℓ where
  panic : Outcome A
  err : Error → Outcome A
  ok : A → Outcome A

-- The statements after a call run if it returns; an error or a panic ends them.
infixl 5 ◌>>=◌ ◌>>◌
abbrev pub ◌>>=◌ {ℓ₁ ℓ₂} : {X : Type ℓ₁} {Y : Type ℓ₂} → Outcome X → (X → Outcome Y) → Outcome Y
call >>= after = elim call [ panic ↦ panic | err e ↦ err e | ok x ↦ after x ]

abbrev pub ◌>>◌ {ℓ₁ ℓ₂} : {X : Type ℓ₁} {Y : Type ℓ₂} → Outcome X → Outcome Y → Outcome Y
call >> after = call >>= λ x. after

-- An index or a slice out of range panics.
abbrev pub or_panic {ℓ} : {A : Type ℓ} → Option A → Outcome A
or_panic none = panic
or_panic (some a) = ok a

-- What a library call answers: a value or an error.
pub data Reply {ℓ} (A : Type ℓ) : Type ℓ where
  value : A → Reply A
  failure : Error → Reply A

abbrev pub found {ℓ} : {A : Type ℓ} → Reply A → Option A
found (value a) = some a
found (failure e) = none

-- If the statements after a call were reached and returned, the call returned.
pub >>=-eq-ok {ℓ₁ ℓ₂} :
    {X : Type ℓ₁} {Y : Type ℓ₂} (call : Outcome X) (after : X → Outcome Y) {y : Y}
    → (call >>= after) ≡ ok y
    → (x : X) × (call ≡ ok x) × (after x ≡ ok y)
>>=-eq-ok panic after returned = cc
>>=-eq-ok (err e) after returned = cc
>>=-eq-ok (ok x) after returned = (x, refl, returned)

pub ok-injective {ℓ} : {A : Type ℓ} {a c : A} → ok a ≡ ok c → a ≡ c
ok-injective h = cc
