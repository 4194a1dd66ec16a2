-- ===== src/Packet/Query/Names.antt =====
-- The counts by name that `getStats` reads from an inner map.
use connectivity_exporter.Prelude.{
  ℕ, zero, suc, ◌-◌, ◌≤◌, ◌≡◌, refl, sym, ap, ◌∙◌, arith, ite, List, [], ◌∷◌, Option, none, some,
  Bool, true, false, ltb, if◌then◌else◌, length, take, drop, All,
}
use connectivity_exporter.Prelude.GoString.{GoString, GoString-discrete}
use connectivity_exporter.Prelude.GoMap.{get, put, get-put}
use connectivity_exporter.Prelude.Results.{ok, panic, >>=-eq-ok, ok-injective}
use connectivity_exporter.Packet.Bytes.{slice, before_zero}
use connectivity_exporter.Packet.Ebpf.{Stats}
use connectivity_exporter.Packet.Query.{Named, collect_names}

-- The name in a key: the bytes after the two addresses, up to the first zero.
abbrev pub name_in : GoString → GoString
name_in key = before_zero (drop 8 key)

abbrev pub or_stats : Option Stats → Option Stats → Option Stats
or_stats (some v) o = some v
or_stats none o = o

-- The counts of the last entry with a name.
abbrev pub last_named : List (GoString × Stats) → GoString → Option Stats
last_named [] name = none
last_named ((key, v) ∷ entries) name =
    or_stats (last_named entries name) (ite (GoString-discrete (name_in key) name) (some v) none)

-- Each key has room for two addresses.
abbrev pub AllLong : List (GoString × Stats) → Type 0
AllLong entries = All (λ e. 8 ≤ length e.0) entries

pub take-all : {A : Type 0} (xs : List A) (n : ℕ) → length xs ≤ n → take n xs ≡ xs
take-all [] zero le = refl
take-all [] (suc n) le = refl
take-all (x ∷ xs) zero le = absurd (omega arith)
take-all (x ∷ xs) (suc n) le = ap (λ t. x ∷ t) (take-all xs n (omega arith))

length-drop_le : {A : Type 0} (n : ℕ) (xs : List A) → length (drop n xs) ≤ length xs - n
length-drop_le zero xs = omega arith
length-drop_le (suc n) [] = omega arith
length-drop_le (suc n) (x ∷ xs) = omega (arith, length-drop_le n xs)

-- A slice from a place to the end.
pub slice_end :
    (s r : GoString) (lo : ℕ) → slice s lo (length s) ≡ ok r → (lo ≤ length s) × (r ≡ drop lo s)
unfolding slice
slice_end s r lo e = by_room (ltb (length s) (length s)) refl (ltb (length s) lo) refl e
  where
    by_room :
        (a : Bool)
        → ltb (length s) (length s) ≡ a
        → (c : Bool) → ltb (length s) lo ≡ c
        → (if a then panic else if c then panic else ok (take (length s - lo) (drop lo s))) ≡ ok r
        → (lo ≤ length s) × (r ≡ drop lo s)
    by_room true p c q h = absurd (cc h)
    by_room false p true q h = absurd (cc h)
    by_room false p false q h = (
      ground (arith, q),
      sym (ok-injective h) ∙ take-all (drop lo s) (length s - lo) (length-drop_le lo s),
    )

pub or_stats-ite :
    {A : Type 0} (later before : Option Stats) (v : Stats) (d : Dec A)
    → or_stats later (ite d (some v) before)
      ≡ or_stats (or_stats later (ite d (some v) none)) before
or_stats-ite (some u) before v d = refl
or_stats-ite none before v (yes p) = refl
or_stats-ite none before v (no n) = refl

pub collect_names-last :
    (entries : List (GoString × Stats)) (named out : Named)
    → collect_names entries named ≡ ok out
    → AllLong entries
      × ((name : GoString)
          → get GoString-discrete out name
            ≡ or_stats (last_named entries name) (get GoString-discrete named name))
unfolding collect_names
collect_names-last [] named out e =
    (tt, λ name. ap (λ m. get GoString-discrete m name) (sym (ok-injective e)))
collect_names-last ((key, v) ∷ entries) named out e =
    let (bytes_of, q, rest) =
      >>=-eq-ok (slice key 8 (length key))
        (λ n. collect_names entries (put GoString-discrete named (before_zero n) v)) e in
    let (long, same) = slice_end key bytes_of 8 q in
    let (all, at) = collect_names-last entries _ out rest in
    (
      (long, all),
      λ name.
          at name
          ∙ ap (or_stats (last_named entries name)) (
              get-put GoString-discrete named (before_zero bytes_of) name v
              ∙ ap
                  (λ n.
                    ite (GoString-discrete (before_zero n) name) (some v)
                      (get GoString-discrete named name))
                  same)
          ∙ or_stats-ite (last_named entries name) (get GoString-discrete named name) v
              (GoString-discrete (name_in key) name),
    )
