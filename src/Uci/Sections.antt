-- ===== src/Uci/Sections.antt =====
-- `sections`, `get_first`, `set_first` and `unset_first` of uci.js.
pub mod Ascending
pub mod First
pub mod Repeated
pub mod Reordered
pub mod Owned
pub mod Unchanged
use text.Mathlib.Text.{◌==◌}
use xluci.Prelude.{
  ℕ, suc, String, Bool, true, false, Option, none, some, List, [], ◌∷◌, ◌++◌, map, leb,
  if◌then◌else◌,
}
use xluci.Prelude.Dict.{Dict, lookup, put, put2}
use xluci.Uci.Store.{Value, Section, Deletion, State}
use xluci.Uci.Access.{Got, is_whole, get, set}

-- !type || s['.type'] == type
unfoldable pub wanted : Option String → Section → Bool
wanted none s = true
wanted (some type) s = if type == "" then true else s.type == type

-- An element of the result: a copy of a loaded section, or the created section of that key itself.
pub record Item : Type 0 where
  pub origin : Option String
  pub sec : Section

-- $.extend(d, o)
unfoldable pub overlay : Dict Value → Dict Value → Dict Value
overlay d [] = d
overlay d ((k, v) ∷ o) = overlay (put k v d) o

-- $.extend({ }, v[s], c ? c[s] : undefined)
unfoldable pub extended : Section → Option (Dict Value) → Section
unfolding overlay
extended s none = s
extended s (some o) = record s { options = overlay s.options o }

-- o ? o[s] : undefined
unfoldable pub entry {ℓ} : {V : Type ℓ} → Option (Dict V) → String → Option V
entry none s = none
entry (some m) s = lookup s m

-- The first loop: the loaded sections of the type that are not deleted, with their changes.
unfoldable pub base_items :
    Option (Dict Deletion) → Option (Dict (Dict Value)) → Option String → Dict Section → List Item
unfolding is_whole entry wanted extended
base_items d c type [] = []
base_items d c type ((sid, s) ∷ v) =
    let rest = base_items d c type v in
    if is_whole (entry d sid)
    then rest
    else if wanted type s
    then record { origin = none; sec = extended s (entry c sid) } ∷ rest
    else rest

-- The second loop: the created sections of the type.
unfoldable pub created_items : Option String → Dict Section → List Item
unfolding wanted
created_items type [] = []
created_items type ((sid, s) ∷ n) =
    let rest = created_items type n in
    if wanted type s then record { origin = some sid; sec = s } ∷ rest else rest

-- o || { }
unfoldable pub or_empty {ℓ} : {V : Type ℓ} → Option (Dict V) → Dict V
or_empty none = []
or_empty (some m) = m

-- The sections of the package, in the order of the two loops; none where it is not loaded.
unfoldable pub gather : State → String → Option String → List Item
unfolding base_items created_items or_empty
gather st conf type = elim (lookup conf st.values) [
  | none ↦ []
  | some v ↦
      base_items (lookup conf st.deletes) (lookup conf st.changes) type v
      ++ created_items type (or_empty (lookup conf st.creates))
]

-- sa.sort(function(a, b) { return a['.index'] - b['.index']; }), which is stable
unfoldable pub insert : Item → List Item → List Item
insert x [] = x ∷ []
insert x (y ∷ ys) = if leb x.sec.index y.sec.index then x ∷ y ∷ ys else y ∷ insert x ys

unfoldable pub sort : List Item → List Item
unfolding insert
sort [] = []
sort (x ∷ xs) = insert x (sort xs)

-- The objects are numbered in place, from `i` on.
unfoldable pub number : ℕ → List Item → List Item
number i [] = []
number i (x ∷ xs) = record x { sec = record x.sec { index = i } } ∷ number (suc i) xs

-- What the numbering does to the created sections, which are in the result themselves.
unfoldable pub write_back : String → List Item → Dict (Dict Section) → Dict (Dict Section)
write_back conf [] n = n
write_back conf (x ∷ xs) n =
    write_back conf xs (elim x.origin [ none ↦ n | some sid ↦ put2 conf sid x.sec n ])

-- sections(conf, type): the sections, and the new state
unfoldable pub sections : State → String → Option String → List Section × State
sections st conf type =
    let items = number 0 (sort (gather st conf type)) in
    (map (λ x. x.sec) items, record st { creates = write_back conf items st.creates })

-- The calls of the callback, with the section, its name and the callback's own variables; the loop
-- ends when the callback returns a value that is neither undefined nor true.
unfoldable pub visit {ℓ} :
    {S : Type ℓ} → (Section → String → S → S × Option Bool) → List Section → S → S
visit cb [] s = s
visit cb (x ∷ xs) s =
    let (s', r) = cb x x.name s in
    elim r [ none ↦ visit cb xs s' | some true ↦ visit cb xs s' | some false ↦ s' ]

-- if (typeof(sid) != 'string') sid = s['.name']
unfoldable pub keep_first : Section → String → Option String → Option String × Option Bool
keep_first s name none = (some s.name, none)
keep_first s name (some sid) = (some sid, none)

unfoldable pub first_sid : State → String → Option String → Option String
first_sid st conf type = visit keep_first (sections st conf type).0 none

-- get_first(conf, type, opt): the call of `sections` may number the created sections anew
unfoldable pub get_first : State → String → Option String → Option String → Got × State
get_first st conf type opt =
    let st' = (sections st conf type).1 in (get st' conf (first_sid st conf type) opt, st')

unfoldable pub set_first : State → String → Option String → Option String → Option Value → State
set_first st conf type opt val = set (sections st conf type).1 conf (first_sid st conf type) opt val

unfoldable pub unset_first : State → String → Option String → Option String → State
unset_first st conf type opt = set_first st conf type opt none
