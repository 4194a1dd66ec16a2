-- ===== src/Prelude/GoString.antt =====
-- Go's `string` and `[]byte` as lists of bytes.
use Prim.Native.Nat.{ℕ}
use Prim.Native.Char.{code}
use Prim.Native.String.{String}
use mathlib.Core.List.{List, [], ◌∷◌}
use native.Mathlib.Decide.{ℕ_discrete}

abbrev pub GoString : Type 0
GoString = List ℕ

-- The bytes of an ASCII literal.
abbrev pub bytes : String → GoString
bytes String.[] = []
bytes (String.◌∷◌ c s) = code c ∷ bytes s

unfoldable pub list_discrete : {A : Type 0} → Discrete A → Discrete (List A)
list_discrete disc = hlevel disc

unfoldable pub GoString-discrete : Discrete GoString
unfolding list_discrete ℕ_discrete
GoString-discrete = list_discrete ℕ_discrete
