-- ===== src/Packet/Trie/Found.antt =====
-- Which addresses a trie finds after a `Put`.
use connectivity_exporter.Prelude.{
  ℕ, zero, suc, ◌<◌, ◌≡◌, ◌≢◌, ℕ_discrete, refl, sym, ap, ◌∙◌, arith, Bool, true, false, ◌||◌, ◌==◌,
  Option, none, some, if◌then◌else◌,
}
use connectivity_exporter.Packet.Trie.{CidrKey, LpmTrie, same_prefix, longest}

abbrev pub is_some : Option ℕ → Bool
is_some none = false
is_some (some v) = true

-- The network of a key has an address.
abbrev pub contains : CidrKey → ℕ → Bool
contains k a = same_prefix k (record { prefixlen = k.prefixlen; ip = a })

any_below : (ℕ → Bool) → ℕ → Bool
any_below hit zero = false
any_below hit (suc n) = let rest = any_below hit n in hit n || rest

some_of_either :
    (h rest below : Bool) (v : ℕ) (o longer : Option ℕ) (l : Option ℕ)
    → is_some longer ≡ (rest || is_some l)
    → is_some (elim (if h then some v else o) [ none ↦ longer | some x ↦ some x ])
      ≡ ((h || rest) || is_some (elim o [ none ↦ l | some x ↦ some x ]))
some_of_either true rest below v o longer l e = refl
some_of_either false true below v none longer l e = e
some_of_either false false below v none longer l e = e
some_of_either false true below v (some x) longer l e = refl
some_of_either false false below v (some x) longer l e = refl

longest_put :
    (hit : ℕ → Bool) (v : ℕ) (f g : ℕ → Option ℕ) (n : ℕ)
    → ((i : ℕ) → g i ≡ (if hit i then some v else f i))
    → is_some (longest g n) ≡ (any_below hit n || is_some (longest f n))
unfolding longest any_below
longest_put hit v f g zero put = refl
longest_put hit v f g (suc n) put =
    ap (λ o. is_some (elim o [ none ↦ longest g n | some x ↦ some x ])) (put n)
    ∙ some_of_either (hit n) (any_below hit n) true v (f n) (longest g n) (longest f n)
        (longest_put hit v f g n put)

none_below : (hit : ℕ → Bool) (n : ℕ) → ((i : ℕ) → i < n → hit i ≡ false) → any_below hit n ≡ false
unfolding any_below
none_below hit zero none_hit = refl
none_below hit (suc n) none_hit =
    rw (none_hit n (omega arith)) (none_below hit n (λ i lt. none_hit i (omega arith)))

apart_test : (p i : ℕ) → p ≢ i → (p == i) ≡ false
apart_test p i ne = ground arith

or_false : (b : Bool) → (b || false) ≡ b
or_false true = refl
or_false false = refl

-- A test that at most one number passes.
one_below :
    (hit : ℕ → Bool) (p n : ℕ) → p < n → ((i : ℕ) → p ≢ i → hit i ≡ false) → any_below hit n ≡ hit p
unfolding any_below
one_below hit p zero lt only = absurd (omega arith)
one_below hit p (suc n) lt only = elim (ℕ_discrete p n) [
  | yes e ↦
      ap (λ t. hit n || t) (none_below hit n (λ i before. only i (λ q. omega (arith, q, e))))
      ∙ or_false (hit n)
      ∙ ap hit (sym e)
  | no ne ↦ ap (λ t. t || any_below hit n) (only n ne) ∙ one_below hit p n (below ne lt) only
]
  where
    below : {p n : ℕ} → p ≢ n → p < suc n → p < n
    below ne lt = omega arith

other_length :
    (k : CidrKey) (a i : ℕ)
    → k.prefixlen ≢ i
    → same_prefix k (record { prefixlen = i; ip = a }) ≡ false
other_length k a i ne = rw (apart_test k.prefixlen i ne) refl

-- After a `Put` an address finds a value if the network of the key has it, or it found one before.
pub lookup-put :
    (t : LpmTrie) (m : t.Map) (k : CidrKey) (v a : ℕ)
    → (t.put m k v).1 ≡ none
    → is_some (t.lookup (t.put m k v).0 a) ≡ (contains k a || is_some (t.lookup m a))
lookup-put t m k v a done =
    let at : ℕ → CidrKey = λ n. record { prefixlen = n; ip = a } in
    let hit = λ (n : ℕ). same_prefix k (at n) in
    ap is_some (t.lookup-longest (t.put m k v).0 a)
    ∙ longest_put hit v (λ n. t.stored m (at n)) (λ n. t.stored (t.put m k v).0 (at n)) 33
        (λ n. t.stored-put m k (at n) v done)
    ∙ ap (λ c. c || is_some (longest (λ n. t.stored m (at n)) 33))
        (one_below hit k.prefixlen 33 (omega (arith, t.put-size m k v done))
          (λ i ne. other_length k a i ne))
    ∙ ap (λ o. contains k a || is_some o) (sym (t.lookup-longest m a))
