-- ===== src/Uci/Access/Deletions.antt =====
-- The lists of deleted options: which options are hidden after an entry is made or taken back.
use mathlib.Core.List.{List, [], ◌∷◌, ◌++◌}
use text.Mathlib.Text.{◌==◌}
use xluci.Prelude.{
  String, Bool, true, false, Option, none, some, ◌≡◌, refl, arith, eq_iff, if◌then◌else◌, ◌⊎◌, inl,
  inr,
}
use xluci.Prelude.Dict.{Dict, lookup2, put2, lookup2-put2}
use xluci.Uci.Store.{Deletion, whole, opts, filter_array}
use xluci.Uci.Access.{contains, hides, undelete, is_whole, push_deletion}

-- The condition of the frame laws: one entry, by package, section and option.
abbrev pub same_entry : String → String → String → String → String → String → Bool
same_entry c s o c' s' o' = if c == c' then (if s == s' then o == o' else false) else false

pub contains-filter_array :
    (l : List String) (o o' : String)
    → contains (filter_array l o) o' ≡ (if o == o' then false else contains l o')
unfolding contains filter_array
contains-filter_array [] o o' = ground arith
contains-filter_array (x ∷ l) o o' =
    ground (arith, eq_iff o o', eq_iff x o, eq_iff x o', contains-filter_array l o o')

contains-push :
    (l : List String) (o o' : String)
    → contains (l ++ o ∷ []) o' ≡ (if o == o' then true else contains l o')
unfolding contains
contains-push [] o o' = ground arith
contains-push (x ∷ l) o o' = ground (arith, eq_iff o o', eq_iff x o', contains-push l o o')

pub entry-cases :
    (e : Option Deletion)
    → (e ≡ none) ⊎ ((e ≡ some whole) ⊎ ((l : List String) × (e ≡ some (opts l))))
entry-cases none = inl refl
entry-cases (some whole) = inr (inl refl)
entry-cases (some (opts l)) = inr (inr (l, refl))

-- After `undelete` the option is not hidden, and every other entry is as before.
pub hides-undelete :
    (d : Dict (Dict Deletion)) (c s o c' s' o' : String)
    → is_whole (lookup2 c s d) ≡ false
    → hides (lookup2 c' s' (undelete d c s o)) o'
      ≡ (if same_entry c s o c' s' o' then false else hides (lookup2 c' s' d) o')
unfolding hides undelete is_whole
hides-undelete d c s o c' s' o' h = elim (entry-cases (lookup2 c s d)) [
  | inl e ↦ ground (arith, e, eq_iff c c', eq_iff s s')
  | inr (inl e) ↦ ground (arith, e)
  | inr (inr (l, e)) ↦ ground (
    arith,
    e,
    eq_iff c c',
    eq_iff s s',
    contains-filter_array l o o',
    lookup2-put2 c s c' s' (opts (filter_array l o)) d,
  )
]

-- After `push_deletion` the option is hidden, and every other entry is as before.
pub hides-push_deletion :
    (d : Dict (Dict Deletion)) (c s o c' s' o' : String)
    → hides (lookup2 c' s' (put2 c s (push_deletion (lookup2 c s d) o) d)) o'
      ≡ (if same_entry c s o c' s' o' then true else hides (lookup2 c' s' d) o')
unfolding hides push_deletion contains
hides-push_deletion d c s o c' s' o' = elim (entry-cases (lookup2 c s d)) [
  | inl e ↦ ground (
    arith,
    e,
    eq_iff c c',
    eq_iff s s',
    contains-push [] o o',
    lookup2-put2 c s c' s' (opts (o ∷ [])) d,
  )
  | inr (inl e) ↦ ground (arith, e, eq_iff c c', eq_iff s s', lookup2-put2 c s c' s' whole d)
  | inr (inr (l, e)) ↦ ground (
    arith,
    e,
    eq_iff c c',
    eq_iff s s',
    contains-push l o o',
    lookup2-put2 c s c' s' (opts (l ++ o ∷ [])) d,
  )
]
