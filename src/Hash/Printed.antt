-- ===== src/Hash/Printed.antt =====
-- What `getHash` reads from the tuples that `setHash` prints, and that it reads keys and values without
-- comma and colon only.
use xluci.Prelude.{
  ℕ, Bool, true, false, ◌&&◌, not, some, List, [], ◌∷◌, map, ◌≡◌, refl, arith, all_b, All, ◌==◌,
  if◌then◌else◌, Bool-cases, Option-cases, inl, inr,
}
use xluci.Text.{Text}
use xluci.Text.Split.{split, onto_first, free_of, split-free, split-append}
use xluci.Hash.{
  Data, value_at, assign, tuple_of, pair_of, tuple, text_at, store_tuples, get_data, fragment,
}
use xluci.Hash.Entries.{
  texts_equal_iff, value_at-assign, has, clean, Clean, Clean-assign, AllClean, clean-value_at,
}

-- A property of the characters holds in every part; so does the absence of the separator.
All-onto_first :
    (p : ℕ → Bool) (c : ℕ) (parts : List Text)
    → p c ≡ true
    → All (λ s. all_b p s ≡ true) parts
    → All (λ s. all_b p s ≡ true) (onto_first c parts)
unfolding onto_first
All-onto_first p c [] hc h = (ground (arith, hc), tt)
All-onto_first p c (s ∷ parts) hc h = (ground (arith, hc, h.0), h.1)

parts-All :
    (p q : ℕ → Bool) (sep : ℕ) (s : Text)
    → ((c : ℕ) → q c ≡ true → (c == sep) ≡ false → p c ≡ true)
    → all_b q s ≡ true
    → All (λ t. all_b p t ≡ true) (split sep s)
unfolding split
parts-All p q sep [] imp h = (refl, tt)
parts-All p q sep (c ∷ s) imp h =
    let rest = parts-All p q sep s imp (ground (arith, h)) in
    elim (Bool-cases (c == sep)) [
      | inl e ↦ rw e (refl, rest)
      | inr ne ↦ rw ne (All-onto_first p c (split sep s) (imp c (ground (arith, h)) ne) rest)
    ]

pair_of-clean :
    (parts : List Text) (k v : Text)
    → AllClean parts
    → pair_of parts ≡ some (k, v)
    → (clean k ≡ true) × (clean v ≡ true)
unfolding pair_of
pair_of-clean [] k v h e = absurd (ground (arith, e))
pair_of-clean (a ∷ []) k v h e = absurd (ground (arith, e))
pair_of-clean (a ∷ b ∷ []) k v h e = (ground (arith, e, h.0), ground (arith, e, h.1.0))
pair_of-clean (a ∷ b ∷ c ∷ l) k v h e = absurd (ground (arith, e))

tuple_of-clean :
    (t k v : Text)
    → free_of b',' t ≡ true
    → tuple_of t ≡ some (k, v)
    → (clean k ≡ true) × (clean v ≡ true)
unfolding tuple_of
tuple_of-clean t k v h e =
    pair_of-clean (split b':' t) k v
      (parts-All (λ c. not (c == b',') && not (c == b':')) (λ c. not (c == b',')) b':' t
        (λ c x y. ground (arith, x, y)) h)
      e

Clean-store_tuples :
    (tuples : List Text) (d : Data)
    → All (λ t. free_of b',' t ≡ true) tuples
    → Clean d
    → Clean (store_tuples tuples d)
unfolding store_tuples
Clean-store_tuples [] d h c = c
Clean-store_tuples (t ∷ tuples) d h c = elim (Option-cases (tuple_of t)) [
  | inl e ↦ rw (e, store_tuples) (Clean-store_tuples tuples d h.1 c)
  | inr ((k, v), e) ↦
      let (ck, cv) = tuple_of-clean t k v h.0 e in
      rw (e, store_tuples)
        (Clean-store_tuples tuples (assign k v d) h.1 (Clean-assign k v d ck cv c))
]

all_true : (s : Text) → all_b (λ c. true) s ≡ true
all_true [] = refl
all_true (c ∷ s) = all_true s

-- Whatever the fragment is, the keys and the values that are read have no comma and no colon.
pub Clean-get_data : (hash : Text) → Clean (get_data hash)
unfolding get_data
Clean-get_data hash =
    Clean-store_tuples (split b',' (fragment hash)) []
      (parts-All (λ c. not (c == b',')) (λ c. true) b',' (fragment hash)
        (λ c x y. ground (arith, x, y)) (all_true (fragment hash)))
      tt

clean-free : (s : Text) → clean s ≡ true → free_of b':' s ≡ true
clean-free [] h = refl
clean-free (c ∷ s) h = ground (arith, h, clean-free s)

pub clean_free_comma : (s : Text) → clean s ≡ true → free_of b',' s ≡ true
clean_free_comma [] h = refl
clean_free_comma (c ∷ s) h = ground (arith, h, clean_free_comma s)

pub clean-text_at : (k : Text) (d : Data) → Clean d → clean (text_at k d) ≡ true
unfolding text_at
clean-text_at k d h = elim (Option-cases (value_at k d)) [
  | inl e ↦ rw (e, text_at) refl
  | inr (v, e) ↦ rw (e, text_at) (clean-value_at k v d h e)
]

pub tuple_of-tuple :
    (d : Data) (k : Text) → Clean d → clean k ≡ true → tuple_of (tuple d k) ≡ some (k, text_at k d)
unfolding tuple_of tuple pair_of
tuple_of-tuple d k h hk =
    rw (split-append b':' k (text_at k d) (clean-free k hk))
      (rw (split-free b':' (text_at k d) (clean-free (text_at k d) (clean-text_at k d h))) refl)

-- The tuples of the keys give each key its value, and every other key what it had before.
pub value_at-store_tuples :
    (d d0 : Data) (ks : List Text) (y : Text)
    → Clean d
    → AllClean ks
    → value_at y (store_tuples (map (tuple d) ks) d0)
      ≡ (if has ks y then some (text_at y d) else value_at y d0)
unfolding store_tuples has
value_at-store_tuples d d0 [] y h hk = refl
value_at-store_tuples d d0 (k ∷ ks) y h hk = ground (
  arith,
  tuple_of-tuple d k h hk.0,
  value_at-store_tuples d (assign k (text_at k d) d0) ks y h hk.1,
  value_at-assign k y (text_at k d) d0,
  texts_equal_iff k y,
)
