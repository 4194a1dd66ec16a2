-- ===== src/Packet/Net/Masked.antt =====
-- What the bytes of a mask keep.
use Prim.Native.Nat.{bit_and}
use connectivity_exporter.Prelude.{
  ℕ_discrete, ap, ◌∙◌, ℕ, zero, suc, ◌-◌, ◌*◌, ◌/◌, ◌^◌, ◌<◌, ◌≤◌, ◌≡◌, refl, arith, Bool, true,
  ◌&&◌, [], ◌∷◌, ◌++◌, leb, ◌==◌, ==_iff, if◌then◌else◌, dec_lt,
}
use connectivity_exporter.Packet.Net.{v4_in_v6, has_prefix}
use connectivity_exporter.Packet.Net.Networks.{mask, mask_byte, apply_mask}

-- The first bits of a byte, the others cleared.
abbrev pub first_bits : ℕ → ℕ → ℕ
first_bits k b = if leb 8 k then b else b / 2 ^ (8 - k) * 2 ^ (8 - k)

-- A test of each number up to a last one.
passes : (ℕ → Bool) → ℕ → Bool
passes test zero = test zero
passes test (suc last) = let before = passes test last in test (suc last) && before

pass_of : (test : ℕ → Bool) (last x : ℕ) → x ≤ last → passes test last ≡ true → test x ≡ true
unfolding passes
pass_of test zero x le h = ap test (omega arith) ∙ h
pass_of test (suc last) x le h = elim (ℕ_discrete x (suc last)) [
  | yes e ↦ ap test e ∙ ground (arith, h)
  | no ne ↦ pass_of test last x (omega arith) (ground (arith, h))
]

abbrev keeps_first : ℕ → ℕ → Bool
keeps_first k b = bit_and b (mask_byte k) == first_bits k b

mask_bytes : passes (λ k. passes (keeps_first k) 255) 8 ≡ true
unfolding passes
mask_bytes = refl

mask_byte-small : (k b : ℕ) → k ≤ 8 → b ≤ 255 → bit_and b (mask_byte k) ≡ first_bits k b
mask_byte-small k b hk hb =
    let row = pass_of (λ j. passes (keeps_first j) 255) 8 k hk mask_bytes in
    (==_iff _ _).0 (pass_of (keeps_first k) 255 b hb row)

at_least_eight : (k : ℕ) → 8 ≤ k → leb 8 k ≡ true
at_least_eight k le = ground arith

-- A byte with the mask of `k` ones.
bit_and-mask_byte : (k b : ℕ) → b < 256 → bit_and b (mask_byte k) ≡ first_bits k b
bit_and-mask_byte k b hb = elim (dec_lt k 8) [
  | yes lt ↦ mask_byte-small k b (omega arith) (omega arith)
  | no ge ↦ rw (at_least_eight k (omega arith)) (mask_byte-small 8 b (omega arith) (omega arith))
]

pub mask-mapped :
    (n a b c d : ℕ)
    → a < 256
    → b < 256
    → c < 256
    → d < 256
    → mask n 32 (v4_in_v6 ++ (a ∷ b ∷ c ∷ d ∷ []))
      ≡ first_bits n a
        ∷ first_bits (n - 8) b
        ∷ first_bits (n - 8 - 8) c
        ∷ first_bits (n - 8 - 8 - 8) d
        ∷ []
unfolding mask apply_mask has_prefix
mask-mapped n a b c d ha hb hc hd =
    rw
      (
        bit_and-mask_byte n a ha,
        bit_and-mask_byte (n - 8) b hb,
        bit_and-mask_byte (n - 8 - 8) c hc,
        bit_and-mask_byte (n - 8 - 8 - 8) d hd,
      )
      refl
