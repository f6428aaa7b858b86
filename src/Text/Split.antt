-- ===== src/Text/Split.antt =====
-- str.split(/c/) for a character c, and the law that it undoes a join.
use mathlib.Core.List.{List, [], ◌∷◌, ◌++◌}
use xluci.Prelude.{ℕ, ◌∙◌, Bool, true, not, ◌≡◌, refl, arith, ◌==◌, if◌then◌else◌, all_b, All, ap}

-- Puts a character in front of the first part.
unfoldable pub onto_first : ℕ → List (List ℕ) → List (List ℕ)
onto_first c [] = (c ∷ []) ∷ []
onto_first c (part ∷ parts) = (c ∷ part) ∷ parts

unfoldable pub split : ℕ → List ℕ → List (List ℕ)
unfolding onto_first
split sep [] = [] ∷ []
split sep (c ∷ s) = let parts = split sep s in if c == sep then [] ∷ parts else onto_first c parts

-- parts.join(c)
unfoldable pub join : ℕ → List (List ℕ) → List ℕ
join sep [] = []
join sep (part ∷ []) = part
join sep (part ∷ part' ∷ parts) = part ++ (sep ∷ join sep (part' ∷ parts))

abbrev pub free_of : ℕ → List ℕ → Bool
free_of sep = all_b (λ c. not (c == sep))

pub split-free : (sep : ℕ) (s : List ℕ) → free_of sep s ≡ true → split sep s ≡ s ∷ []
unfolding split
split-free sep [] h = refl
split-free sep (c ∷ s) h = ground (arith, split-free sep s)

pub split-append :
    (sep : ℕ) (s t : List ℕ) → free_of sep s ≡ true → split sep (s ++ (sep ∷ t)) ≡ s ∷ split sep t
unfolding split
split-append sep [] t h = ground arith
split-append sep (c ∷ s) t h = ground (arith, split-append sep s t)

-- Parts that are free of the separator come back from their join.
pub split-join :
    (sep : ℕ) (part : List ℕ) (parts : List (List ℕ))
    → All (λ p. free_of sep p ≡ true) (part ∷ parts)
    → split sep (join sep (part ∷ parts)) ≡ part ∷ parts
unfolding join
split-join sep part [] h = split-free sep part h.0
split-join sep part (part' ∷ parts) h =
    split-append sep part (join sep (part' ∷ parts)) h.0
    ∙ ap (◌∷◌ part) (split-join sep part' parts h.1)
