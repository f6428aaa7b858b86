-- ===== src/Cbi/Depends.antt =====
-- The dependencies of fields: `depends` and `toggle` of cbi.js.
pub mod Known
pub mod Kept
pub mod Toggled
pub mod Built
use xluci.Prelude.{
  ℕ, zero, suc, String, Bool, true, false, not, Option, none, some, List, [], ◌∷◌, ◌++◌, map,
  get_elem?, if◌then◌else◌,
}
use xluci.Prelude.Dict.{Dict, lookup, put}
use xluci.Uci.Store.{Value, str, num, flag, State}
use xluci.Cbi.Js.{Js, loosely_equal}
use xluci.Cbi.Field.{Condition, is_set, equals_text, equals_number, passes, Field, Page}
use xluci.Cbi.Value.{formvalue, nothing_if_empty}
use xluci.Cbi.Form.{Form}

-- The first argument of `depends`, with the second: an array of names or fields, one of these with a
-- condition, or an object of conditions.
pub data Target : Type 0 where
  each : List String → Target
  one : String → Option Condition → Target
  all : Dict Condition → Target

-- dep[d[i]] = true
unfoldable pub each_set : List String → Dict Condition → Dict Condition
each_set [] dep = dep
each_set (d ∷ l) dep = each_set l (put d (is_set true) dep)

unfoldable pub dependency : Target → Dict Condition
unfolding each_set
dependency (each l) = each_set l []
dependency (one d none) = (d, is_set true) ∷ []
dependency (one d (some v)) = (d, v) ∷ []
dependency (all dep) = dep

-- delete dep[field], for the names that are no field
unfoldable pub known_only : Dict ℕ → Dict Condition → Dict Condition
known_only fields [] = []
known_only fields ((field, c) ∷ dep) =
    let rest = known_only fields dep in
    elim (lookup field fields) [ none ↦ rest | some w ↦ (field, c) ∷ rest ]

-- The object at the place is changed.
unfoldable pub modify : (Field → Field) → ℕ → List Field → List Field
modify g w [] = []
modify g zero (f ∷ made) = g f ∷ made
modify g (suc w) (f ∷ made) = f ∷ modify g w made

-- f.rdependency[this.name] = this
unfoldable pub add_dependent : String → ℕ → Field → Field
add_dependent name this f = record f { rdependency = put name this f.rdependency }

-- The registration at each field of the dependency.
unfoldable pub register : Dict ℕ → String → ℕ → Dict Condition → List Field → List Field
unfolding modify add_dependent
register fields name this [] made = made
register fields name this ((field, c) ∷ dep) made = elim (lookup field fields) [
  | none ↦ register fields name this dep made
  | some w ↦ register fields name this dep (modify (add_dependent name this) w made)
]

-- $.extend(e, dep)
unfoldable pub extend : Dict Condition → Dict Condition → Dict Condition
extend e [] = e
extend e ((k, c) ∷ dep) = extend (put k c e) dep

-- The part of `depends` that keeps the dependency.
unfoldable pub add_dependency : Dict Condition → Bool → Field → Field
unfolding extend
add_dependency dep add f = record f {
  dependencies = elim f.dependencies [
    | [] ↦ dep ∷ []
    | d ∷ l ↦ if add then map (λ e. extend e dep) (d ∷ l) else (d ∷ l) ++ dep ∷ []
  ];
}

-- depends(d, v, add) of the field at the place `this`, with the name `name`; an object `d` is its own
unfoldable pub depends : Form → ℕ → String → Target → Bool → Form
unfolding dependency known_only register add_dependency
depends form this name d add =
    let dep = dependency d in
    let known = known_only form.fields dep in
    elim known [
      | [] ↦ form
      | x ∷ rest ↦ record form {
        made =
            modify (add_dependency (x ∷ rest) add) this
              (register form.fields name this dep form.made);
      }
    ]

-- typeof(val) == 'undefined' || val === '' || val === false
unfoldable pub is_unset : Option Value → Bool
unfolding nothing_if_empty
is_unset none = true
is_unset (some (flag b)) = not b
is_unset (some v) = elim (nothing_if_empty (some v)) [ none ↦ true | some w ↦ false ]

-- Whether a value meets a condition.
unfoldable pub holds : Js → Condition → Option Value → Bool
unfolding is_unset loosely_equal
holds js (is_set cmp) val = if cmp then not (is_unset val) else is_unset val
holds js (equals_text cmp) val = loosely_equal js val (some (str cmp))
holds js (equals_number cmp) val = loosely_equal js val (some (num cmp))
holds js (passes cmp) val = cmp val

-- The inner loop of `toggle`, which stops at the first condition that fails: `none` where it throws, at
-- a name that is no field.
unfoldable pub meets : Js → (String → Option (Option Value)) → Dict Condition → Option Bool
unfolding holds
meets js value [] = some true
meets js value ((field, cmp) ∷ dep) =
    let rest = meets js value dep in
    elim (value field) [ none ↦ none | some val ↦ if holds js cmp val then rest else some false ]

-- The outer loop, which stops at the first dependency that is met.
unfoldable pub any_met : Js → (String → Option (Option Value)) → List (Dict Condition) → Option Bool
unfolding meets
any_met js value [] = some false
any_met js value (d ∷ l) =
    let rest = any_met js value l in
    elim (meets js value d) [ none ↦ none | some b ↦ if b then some true else rest ]

-- this.ownerSection.fields[field].formvalue(sid)
unfoldable pub value_of :
    Js → Page → String → State → Form → String → String → Option (Option Value)
unfolding formvalue
value_of js page conf st form sid field = elim (lookup field form.fields) [
  | none ↦ none
  | some w ↦ elim (get_elem? form.made w) [
    | none ↦ none
    | some f ↦ some (formvalue js page conf form.uci_type st f sid)
  ]
]

-- i.disabled = …
unfoldable pub set_disabled : String → Bool → Field → Field
set_disabled sid b f = record f { instance = put sid b f.instance }

-- var i = this.instance[sid] = { }, as `render` does
unfoldable pub render_field : String → ℕ → Form → Form
unfolding set_disabled modify
render_field sid this form = record form { made = modify (set_disabled sid false) this form.made }

-- toggle(sid) of the field at the place `this`: the result and the form; `none` where it throws, at an
-- instance that was not rendered or at an unknown field
unfoldable pub toggle :
    Js → Page → String → State → Form → ℕ → Field → String → Option (Bool × Form)
unfolding any_met value_of set_disabled modify
toggle js page conf st form this f sid = elim f.dependencies [
  | [] ↦ some (true, form)
  | d ∷ l ↦ elim (any_met js (value_of js page conf st form sid) (d ∷ l)) [
    | none ↦ none
    | some b ↦ elim (lookup sid f.instance) [
      | none ↦ none
      | some disabled ↦
          some (b, record form { made = modify (set_disabled sid (not b)) this form.made })
    ]
  ]
]
