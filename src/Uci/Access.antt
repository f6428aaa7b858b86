-- ===== src/Uci/Access.antt =====
-- Reading and writing options: `get`, `set`, `unset` and `remove` of uci.js.
pub mod Deletions
pub mod ReadWrite
pub mod Removed
pub mod Stored
use mathlib.Core.List.{List, [], ◌∷◌, ◌++◌}
use text.Mathlib.Text.{◌==◌}
use xluci.Prelude.{String, Bool, true, false, not, Option, none, some, if◌then◌else◌}
use xluci.Prelude.Dict.{Dict, lookup, put, lookup2, put2, remove2}
use xluci.Uci.Store.{
  Value, str, Section, Deletion, whole, opts, State, is_meta, field, assign, filter_array,
}

unfoldable pub contains : List String → String → Bool
contains [] opt = false
contains (x ∷ l) opt = let rest = contains l opt in if x == opt then true else rest

-- check whether option was deleted
unfoldable pub hides : Option Deletion → String → Bool
unfolding contains
hides none opt = false
hides (some whole) opt = true
hides (some (opts l)) opt = contains l opt

-- c[conf][sid][opt], where it is there
unfoldable pub changed : State → String → String → String → Option Value
changed st conf sid opt = elim (lookup2 conf sid st.changes) [ none ↦ none | some o ↦ lookup opt o ]

-- v[conf][sid][opt], where it is there
unfoldable pub loaded : State → String → String → String → Option Value
loaded st conf sid opt = elim (lookup2 conf sid st.values) [ none ↦ none | some s ↦ field s opt ]

-- The option of a section that was not created here: deleted, changed, or as it was loaded.
unfoldable pub base_option : State → String → String → String → Option Value
base_option st conf sid opt =
    if hides (lookup2 conf sid st.deletes) opt
    then none
    else elim (changed st conf sid opt) [ some v ↦ some v | none ↦ loaded st conf sid opt ]

-- get(conf, sid, opt)
unfoldable pub get_option : State → String → String → String → Option Value
get_option st conf sid opt = elim (lookup2 conf sid st.creates) [
  | some s ↦ field s opt
  | none ↦ base_option st conf sid opt
]

-- get(conf, sid): the section, created or loaded
unfoldable pub get_section : State → String → String → Option Section
get_section st conf sid = elim (lookup2 conf sid st.creates) [
  | some s ↦ some s
  | none ↦ lookup2 conf sid st.values
]

-- What `get` may return.
pub data Got : Type 0 where
  nothing : Got
  value : Value → Got
  section : Section → Got

unfoldable pub get : State → String → Option String → Option String → Got
get st conf none opt = nothing
get st conf (some sid) none = elim (get_section st conf sid) [ none ↦ nothing | some s ↦ section s ]
get st conf (some sid) (some opt) = elim (get_option st conf sid opt) [
  | none ↦ nothing
  | some v ↦ value v
]

-- d[conf][sid] = L.filterArray(d[conf][sid], opt), if there is such an entry
unfoldable pub undelete : Dict (Dict Deletion) → String → String → String → Dict (Dict Deletion)
undelete d conf sid opt = elim (lookup2 conf sid d) [
  | none ↦ d
  | some whole ↦ put2 conf sid (opts []) d
  | some (opts l) ↦ put2 conf sid (opts (filter_array l opt)) d
]

unfoldable pub is_whole : Option Deletion → Bool
is_whole (some whole) = true
is_whole _ = false

unfoldable pub is_some {ℓ} : {A : Type ℓ} → Option A → Bool
is_some none = false
is_some (some a) = true

-- The branch of `set` that stores a value in a loaded section.
unfoldable pub set_base : State → String → String → String → Value → State
set_base st conf sid opt v =
    if is_whole (lookup2 conf sid st.deletes)
    then st
    else if not (is_some (lookup2 conf sid st.values))
    then st
    else record st {
      deletes = undelete st.deletes conf sid opt;
      changes =
          put2 conf sid (put opt v (elim (lookup2 conf sid st.changes) [ none ↦ [] | some o ↦ o ]))
            st.changes;
    }

-- `d[conf][sid] = [ ]` if there is none, then a push of the option unless the section is deleted
unfoldable pub push_deletion : Option Deletion → String → Deletion
push_deletion none opt = opts (opt ∷ [])
push_deletion (some whole) opt = whole
push_deletion (some (opts l)) opt = opts (l ++ opt ∷ [])

-- The branch of `set` that deletes an option of a loaded section.
unfoldable pub unset_base : State → String → String → String → State
unset_base st conf sid opt = if not (is_some (lookup2 conf sid st.values)) then st else record st {
  deletes = put2 conf sid (push_deletion (lookup2 conf sid st.deletes) opt) st.deletes;
}

-- typeof(val) != 'undefined' && val !== ''
unfoldable pub given : Option Value → Option Value
given none = none
given (some (str s)) = if s == "" then none else some (str s)
given (some v) = some v

-- set(conf, sid, opt, val), where `sid` and `opt` are given
unfoldable pub set_option : State → String → String → String → Option Value → State
set_option st conf sid opt val = if is_meta opt then st else elim (lookup2 conf sid st.creates) [
  | some s ↦ record st { creates = put2 conf sid (assign s opt val) st.creates }
  | none ↦ elim (given val) [
    | some v ↦ set_base st conf sid opt v
    | none ↦ unset_base st conf sid opt
  ]
]

unfoldable pub set : State → String → Option String → Option String → Option Value → State
unfolding set_option
set st conf (some sid) (some opt) val = set_option st conf sid opt val
set st conf sid opt val = st

-- unset(conf, sid, opt)
unfoldable pub unset : State → String → Option String → Option String → State
unfolding set
unset st conf sid opt = set st conf sid opt none

-- remove(conf, sid)
unfoldable pub remove : State → String → String → State
remove st conf sid = elim (lookup2 conf sid st.creates) [
  | some s ↦ record st { creates = remove2 conf sid st.creates }
  | none ↦ record st {
    changes = remove2 conf sid st.changes;
    deletes = put2 conf sid whole st.deletes;
  }
]
