-- ===== src/Prelude/Dict.antt =====
-- A JavaScript object as a dictionary: string keys in the order of their first assignment, which is
-- the order of `for (k in o)`. An assignment to a key that is there keeps the key's place.
use Prim.Native.String.{String}
use mathlib.Core.Path.{◌≡◌, refl}
use mathlib.Core.Option.{Option, none, some}
use mathlib.Core.List.{List, [], ◌∷◌, map}
use native.Mathlib.Omega.{arith}
use text.Mathlib.Text.{◌==◌}
use text.Mathlib.TextEquality.{eq_iff}
use mathlib.Core.Logic.{inl, inr}
use xluci.Prelude.Tests.{if◌then◌else◌, Option-cases}

abbrev pub Dict {ℓ} : Type ℓ → Type ℓ
Dict V = List (String × V)

module _ {ℓ} {V : Type ℓ} where
  -- o[k]
  unfoldable pub lookup : String → Dict V → Option V
  lookup k [] = none
  lookup k ((j, v) ∷ d) = if j == k then some v else lookup k d

  -- o[k] = v
  unfoldable pub put : String → V → Dict V → Dict V
  put k v [] = (k, v) ∷ []
  put k v ((j, w) ∷ d) = if j == k then (k, v) ∷ d else (j, w) ∷ put k v d

  -- delete o[k]
  unfoldable pub remove : String → Dict V → Dict V
  remove k [] = []
  remove k ((j, v) ∷ d) = let rest = remove k d in if j == k then rest else (j, v) ∷ rest

  abbrev pub keys : Dict V → List String
  keys = map (λ e. e.0)

  pub lookup-nil : (k : String) → lookup k [] ≡ none
  unfolding lookup
  lookup-nil k = refl

  pub lookup-put :
      (k j : String) (v : V) (d : Dict V)
      → lookup j (put k v d) ≡ (if k == j then some v else lookup j d)
  unfolding lookup put
  lookup-put k j v [] = refl
  lookup-put k j v ((i, w) ∷ d) =
      ground (arith, eq_iff k j, eq_iff i k, eq_iff i j, lookup-put k j v d)

  pub lookup-remove :
      (k j : String) (d : Dict V) → lookup j (remove k d) ≡ (if k == j then none else lookup j d)
  unfolding lookup remove
  lookup-remove k j [] = ground arith
  lookup-remove k j ((i, w) ∷ d) =
      ground (arith, eq_iff k j, eq_iff i k, eq_iff i j, lookup-remove k j d)

module _ {ℓ} {V : Type ℓ} where
  -- o[c] && o[c][s]
  unfoldable pub lookup2 : String → String → Dict (Dict V) → Option V
  lookup2 c s d = elim (lookup c d) [ none ↦ none | some m ↦ lookup s m ]

  -- if (!o[c]) o[c] = { }; o[c][s] = v
  unfoldable pub put2 : String → String → V → Dict (Dict V) → Dict (Dict V)
  put2 c s v d = elim (lookup c d) [ none ↦ put c (put s v []) d | some m ↦ put c (put s v m) d ]

  -- if (o[c]) delete o[c][s]
  unfoldable pub remove2 : String → String → Dict (Dict V) → Dict (Dict V)
  remove2 c s d = elim (lookup c d) [ none ↦ d | some m ↦ put c (remove s m) d ]

  pub lookup2-put2 :
      (c s c' s' : String) (v : V) (d : Dict (Dict V))
      → lookup2 c' s' (put2 c s v d)
        ≡ (if c == c' then (if s == s' then some v else lookup2 c' s' d) else lookup2 c' s' d)
  unfolding lookup2 put2
  lookup2-put2 c s c' s' v d = elim (Option-cases (lookup c d)) [
    | inl e ↦ ground (
      arith,
      e,
      eq_iff c c',
      lookup-put c c' (put s v []) d,
      lookup-put s s' v [],
      lookup-nil {V = V} s',
    )
    | inr (m, e) ↦
        ground (arith, e, eq_iff c c', lookup-put c c' (put s v m) d, lookup-put s s' v m)
  ]

  pub lookup2-remove2 :
      (c s c' s' : String) (d : Dict (Dict V))
      → lookup2 c' s' (remove2 c s d)
        ≡ (if c == c' then (if s == s' then none else lookup2 c' s' d) else lookup2 c' s' d)
  unfolding lookup2 remove2
  lookup2-remove2 c s c' s' d = elim (Option-cases (lookup c d)) [
    | inl e ↦ ground (arith, e, eq_iff c c')
    | inr (m, e) ↦
        ground (arith, e, eq_iff c c', lookup-put c c' (remove s m) d, lookup-remove s s' m)
  ]

  pub lookup-put2 :
      (c s : String) (v : V) (d : Dict (Dict V)) {m : Dict V}
      → lookup c d ≡ some m
      → lookup c (put2 c s v d) ≡ some (put s v m)
  unfolding put2
  lookup-put2 c s v d {m} e = ground (arith, e, eq_iff c c, lookup-put c c (put s v m) d)
