-- ===== src/Uci/Edits/Keys.antt =====
-- Distinct keys, and properties of every entry, after writes to a map of maps.
use text.Mathlib.Text.{◌==◌}
use mathlib.Core.Path.{subst}
use xluci.Prelude.{
  String, some, [], ◌∷◌, ◌≡◌, refl, arith, eq_iff, All, inl, inr, Option-cases, Bool-cases,
}
use xluci.Prelude.Dict.{
  Dict, lookup, put, remove, lookup2, put2, remove2, lookup-put, lookup-remove,
}
use xluci.Uci.Save.Sets.{Distinct, Distinct2}

module _ {ℓ} {V : Type ℓ} where
  Distinct-put : (k : String) (v : V) (d : Dict V) → Distinct d → Distinct (put k v d)
  unfolding put lookup
  Distinct-put k v [] h = (refl, tt)
  Distinct-put k v ((j, w) ∷ d) h = elim (Bool-cases (j == k)) [
    | inl e ↦ rw e (ground (arith, h.0, eq_iff j k, e), h.1)
    | inr ne ↦ rw ne (
      ground (arith, h.0, lookup-put k j v d, eq_iff j k, eq_iff k j, ne),
      Distinct-put k v d h.1,
    )
  ]

  Distinct-remove : (k : String) (d : Dict V) → Distinct d → Distinct (remove k d)
  unfolding remove
  Distinct-remove k [] h = tt
  Distinct-remove k ((j, w) ∷ d) h = elim (Bool-cases (j == k)) [
    | inl e ↦ rw e (Distinct-remove k d h.1)
    | inr ne ↦ rw ne (ground (arith, h.0, lookup-remove k j d), Distinct-remove k d h.1)
  ]

-- A property of every entry, which may name the key.
module _ {ℓ κ} {V : Type ℓ} (P : String → V → Type κ) where
  abbrev pub Each : Dict V → Type κ
  Each = All (λ e. P e.0 e.1)

  Each-put : (k : String) (v : V) (d : Dict V) → P k v → Each d → Each (put k v d)
  unfolding put
  Each-put k v [] p h = (p, tt)
  Each-put k v ((j, w) ∷ d) p h = elim (Bool-cases (j == k)) [
    | inl e ↦ rw e (p, h.1)
    | inr ne ↦ rw ne (h.0, Each-put k v d p h.1)
  ]

  Each-remove : (k : String) (d : Dict V) → Each d → Each (remove k d)
  unfolding remove
  Each-remove k [] h = tt
  Each-remove k ((j, w) ∷ d) h = elim (Bool-cases (j == k)) [
    | inl e ↦ rw e (Each-remove k d h.1)
    | inr ne ↦ rw ne (h.0, Each-remove k d h.1)
  ]

  pub at-Each : (k : String) (v : V) (d : Dict V) → lookup k d ≡ some v → Each d → P k v
  unfolding lookup
  at-Each k v [] e h = absurd (ground (arith, e))
  at-Each k v ((j, w) ∷ d) e h = elim (Bool-cases (j == k)) [
    | inl same ↦
        let w_is_v : w ≡ v = ground (arith, same, e) in
        subst (λ i. P i v) ((eq_iff j k).0 same) (subst (λ x. P j x) w_is_v h.0)
    | inr ne ↦ at-Each k v d (ground (arith, ne, e)) h.1
  ]

module _ {ℓ κ} {V : Type ℓ} (P : String → String → V → Type κ) where
  abbrev pub Each2 : Dict (Dict V) → Type κ
  Each2 = Each (λ c m. Each (P c) m)

  pub Each2-put2 :
      (c s : String) (v : V) (d : Dict (Dict V)) → P c s v → Each2 d → Each2 (put2 c s v d)
  unfolding put2
  Each2-put2 c s v d p h = elim (Option-cases (lookup c d)) [
    | inl e ↦
        rw (e, put2)
          (Each-put (λ c m. Each (P c) m) c (put s v []) d (Each-put (P c) s v [] p tt) h)
    | inr (m, e) ↦
        rw (e, put2)
          (Each-put (λ c m. Each (P c) m) c (put s v m) d
            (Each-put (P c) s v m p (at-Each (λ c m. Each (P c) m) c m d e h)) h)
  ]

  pub Each2-remove2 : (c s : String) (d : Dict (Dict V)) → Each2 d → Each2 (remove2 c s d)
  unfolding remove2
  Each2-remove2 c s d h = elim (Option-cases (lookup c d)) [
    | inl e ↦ rw (e, remove2) h
    | inr (m, e) ↦
        rw (e, remove2)
          (Each-put (λ c m. Each (P c) m) c (remove s m) d
            (Each-remove (P c) s m (at-Each (λ c m. Each (P c) m) c m d e h)) h)
  ]

  pub at-Each2 :
      (c s : String) (v : V) (d : Dict (Dict V)) → lookup2 c s d ≡ some v → Each2 d → P c s v
  unfolding lookup2
  at-Each2 c s v d e h = elim (Option-cases (lookup c d)) [
    | inl none_there ↦ absurd (ground (arith, none_there, e))
    | inr (m, there) ↦
        at-Each (P c) s v m (ground (arith, there, e)) (at-Each (λ c m. Each (P c) m) c m d there h)
  ]

module _ {ℓ} {V : Type ℓ} where
  pub Distinct2-put2 :
      (c s : String) (v : V) (d : Dict (Dict V)) → Distinct2 d → Distinct2 (put2 c s v d)
  unfolding put2
  Distinct2-put2 c s v d h = elim (Option-cases (lookup c d)) [
    | inl e ↦
        rw (e, put2)
          (
            Distinct-put c (put s v []) d h.0,
            Each-put (λ c m. Distinct m) c (put s v []) d (Distinct-put s v [] tt) h.1,
          )
    | inr (m, e) ↦
        rw (e, put2)
          (
            Distinct-put c (put s v m) d h.0,
            Each-put (λ c m. Distinct m) c (put s v m) d
                (Distinct-put s v m (at-Each (λ c m. Distinct m) c m d e h.1)) h.1,
          )
  ]

  pub Distinct2-remove2 :
      (c s : String) (d : Dict (Dict V)) → Distinct2 d → Distinct2 (remove2 c s d)
  unfolding remove2
  Distinct2-remove2 c s d h = elim (Option-cases (lookup c d)) [
    | inl e ↦ rw (e, remove2) h
    | inr (m, e) ↦
        rw (e, remove2)
          (
            Distinct-put c (remove s m) d h.0,
            Each-put (λ c m. Distinct m) c (remove s m) d
                (Distinct-remove s m (at-Each (λ c m. Distinct m) c m d e h.1)) h.1,
          )
  ]
