-- ===== src/Hash/Entries.antt =====
-- The entries of the object `data`: what is read after an assignment, a deletion and the sorting, and
-- of which characters they are made.
use xluci.Prelude.{
  Bool, true, false, ◌&&◌, not, none, some, List, [], ◌∷◌, ◌≡◌, ◌↔◌, refl, arith, all_b, All, ◌==◌,
  if◌then◌else◌, Bool-cases, inl, inr,
}
use mathlib.Core.Path.{subst}
use xluci.Text.{Text, texts_equal}
use xluci.Uci.Access.{is_some}
use xluci.Hash.{Data, value_at, assign, delete, insert_key, text_leb, sorted}

texts_equal_refl : (s : Text) → texts_equal s s ≡ true
unfolding texts_equal
texts_equal_refl [] = refl
texts_equal_refl (c ∷ s) = ground (arith, texts_equal_refl s)

equal_of_texts : (s t : Text) → texts_equal s t ≡ true → s ≡ t
unfolding texts_equal
equal_of_texts [] [] h = refl
equal_of_texts [] (d ∷ t) h = absurd (ground (arith, h))
equal_of_texts (c ∷ s) [] h = absurd (ground (arith, h))
equal_of_texts (c ∷ s) (d ∷ t) h = ground (arith, h, equal_of_texts s t (ground (arith, h)))

pub texts_equal_iff : (s t : Text) → (texts_equal s t ≡ true) ↔ (s ≡ t)
texts_equal_iff s t =
    (λ h. equal_of_texts s t h, λ e. subst (λ x. texts_equal s x ≡ true) e (texts_equal_refl s))

pub value_at-assign :
    (k y v : Text) (d : Data)
    → value_at y (assign k v d) ≡ (if texts_equal k y then some v else value_at y d)
unfolding value_at assign
value_at-assign k y v [] = refl
value_at-assign k y v ((j, w) ∷ d) =
    ground (
      arith,
      texts_equal_iff k y,
      texts_equal_iff j k,
      texts_equal_iff j y,
      value_at-assign k y v d,
    )

pub value_at-delete :
    (k y : Text) (d : Data)
    → value_at y (delete k d) ≡ (if texts_equal k y then none else value_at y d)
unfolding value_at delete
value_at-delete k y [] = ground arith
value_at-delete k y ((j, w) ∷ d) =
    ground
      (arith, texts_equal_iff k y, texts_equal_iff j k, texts_equal_iff j y, value_at-delete k y d)

-- Whether a key is in a list.
unfoldable pub has : List Text → Text → Bool
has [] y = false
has (k ∷ keys) y = let rest = has keys y in if texts_equal k y then true else rest

has-insert_key :
    (k : Text) (keys : List Text) (y : Text)
    → has (insert_key k keys) y ≡ (if texts_equal k y then true else has keys y)
unfolding has insert_key
has-insert_key k [] y = refl
has-insert_key k (j ∷ keys) y = ground (arith, has-insert_key k keys y)

pub has-sorted : (d : Data) (y : Text) → has (sorted d) y ≡ is_some (value_at y d)
unfolding has sorted value_at is_some
has-sorted [] y = refl
has-sorted ((k, v) ∷ d) y = ground (arith, has-insert_key k (sorted d) y, has-sorted d y)

-- A text without comma and colon.
abbrev pub clean : Text → Bool
clean = all_b (λ c. not (c == b',') && not (c == b':'))

abbrev pub Clean : Data → Type 0
Clean = All (λ e. (clean e.0 ≡ true) × (clean e.1 ≡ true))

pub Clean-assign :
    (k v : Text) (d : Data) → clean k ≡ true → clean v ≡ true → Clean d → Clean (assign k v d)
unfolding assign
Clean-assign k v [] hk hv h = ((hk, hv), tt)
Clean-assign k v ((j, w) ∷ d) hk hv h = elim (Bool-cases (texts_equal j k)) [
  | inl e ↦ rw e ((hk, hv), h.1)
  | inr e ↦ rw e (h.0, Clean-assign k v d hk hv h.1)
]

pub Clean-delete : (k : Text) (d : Data) → Clean d → Clean (delete k d)
unfolding delete
Clean-delete k [] h = tt
Clean-delete k ((j, w) ∷ d) h = elim (Bool-cases (texts_equal j k)) [
  | inl e ↦ rw e (Clean-delete k d h.1)
  | inr e ↦ rw e (h.0, Clean-delete k d h.1)
]

abbrev pub AllClean : List Text → Type 0
AllClean = All (λ k. clean k ≡ true)

AllClean-insert_key :
    (k : Text) (keys : List Text) → clean k ≡ true → AllClean keys → AllClean (insert_key k keys)
unfolding insert_key
AllClean-insert_key k [] hk h = (hk, tt)
AllClean-insert_key k (j ∷ keys) hk h = elim (Bool-cases (text_leb k j)) [
  | inl e ↦ rw e (hk, h)
  | inr e ↦ rw e (h.0, AllClean-insert_key k keys hk h.1)
]

pub AllClean-sorted : (d : Data) → Clean d → AllClean (sorted d)
unfolding sorted
AllClean-sorted [] h = tt
AllClean-sorted ((k, v) ∷ d) h = AllClean-insert_key k (sorted d) h.0.0 (AllClean-sorted d h.1)

pub clean-value_at : (k v : Text) (d : Data) → Clean d → value_at k d ≡ some v → clean v ≡ true
unfolding value_at
clean-value_at k v [] h e = absurd (ground (arith, e))
clean-value_at k v ((j, w) ∷ d) h e = elim (Bool-cases (texts_equal j k)) [
  | inl eq ↦ ground (arith, eq, e, h.0.1)
  | inr ne ↦ clean-value_at k v d h.1 (ground (arith, ne, e))
]
