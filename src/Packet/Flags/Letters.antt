-- ===== src/Packet/Flags/Letters.antt =====
-- Reading the text of TCP flags, `flagsString` of connectivity-exporter/packet/bpf.go.
use connectivity_exporter.Prelude.{
  ℕ, zero, suc, ◌+◌, ◌*◌, ◌/◌, ◌%◌, ◌<◌, ◌≡◌, refl, ap, ◌∙◌, arith, Bool, false, ◌||◌, List, [],
  ◌∷◌, ◌++◌, ◌==◌, if◌then◌else◌,
}
use connectivity_exporter.Prelude.GoString.{GoString}
use connectivity_exporter.Packet.Flags.{TcpFlag, flag, tcp_flags, has_flag, letters, flags_string}

abbrev pub has_letter : ℕ → GoString → Bool
has_letter c [] = false
has_letter c (b ∷ bs) = (b == c) || has_letter c bs

-- Some flag of a table has this letter and is set.
abbrev pub is_set : ℕ → ℕ → List TcpFlag → Bool
is_set flags c [] = false
is_set flags c (f ∷ fs) =
    let rest = is_set flags c fs in if f.short == c then has_flag flags f || rest else rest

has_letter-letters :
    (flags c : ℕ) (fs : List TcpFlag) (after : GoString)
    → has_letter c (letters flags fs ++ after) ≡ (is_set flags c fs || has_letter c after)
unfolding letters
has_letter-letters flags c [] after = refl
has_letter-letters flags c (f ∷ fs) after = ground (arith, has_letter-letters flags c fs after)

has_letter-flags_string :
    (flags c : ℕ)
    → has_letter c (flags_string flags)
      ≡ ((b'[' == c) || (is_set flags c tcp_flags || ((b']' == c) || false)))
unfolding flags_string
has_letter-flags_string flags c =
    ap (λ b. (b'[' == c) || b) (has_letter-letters flags c tcp_flags (b']' ∷ []))

-- The flags of a table whose letter stands in a text.
abbrev pub read_flags : GoString → List TcpFlag → ℕ
read_flags s [] = 0
read_flags s (f ∷ fs) = (if has_letter f.short s then f.mask else 0) + read_flags s fs

-- What a letter of the text adds, for the bit that it stands for.
weight : (p mask : ℕ) → p < 2 → (if ((p == 1) || false) || false then mask else 0) ≡ p * mask
weight zero mask h = omega arith
weight (suc zero) mask h = omega arith
weight (suc (suc p)) mask h = absurd (omega arith)

bit :
    (flags : ℕ) (f : TcpFlag)
    → ((b'[' == f.short) || (is_set flags f.short tcp_flags || ((b']' == f.short) || false)))
      ≡ (((flags / f.mask % 2 == 1) || false) || false)
    → (if has_letter f.short (flags_string flags) then f.mask else 0) ≡ flags / f.mask % 2 * f.mask
bit flags f e =
    ap (λ b. if b then f.mask else 0) (has_letter-flags_string flags f.short ∙ e)
    ∙ weight (flags / f.mask % 2) f.mask (omega arith)

-- The text of a byte of flags gives back the byte.
pub read_flags-flags_string :
    (flags : ℕ) → flags < 256 → read_flags (flags_string flags) tcp_flags ≡ flags
read_flags-flags_string n small = omega (
  arith,
  bit n (flag 1 b'F') refl,
  bit n (flag 2 b'S') refl,
  bit n (flag 4 b'R') refl,
  bit n (flag 8 b'P') refl,
  bit n (flag 16 b'.') refl,
  bit n (flag 32 b'U') refl,
  bit n (flag 64 b'E') refl,
  bit n (flag 128 b'W') refl,
)
