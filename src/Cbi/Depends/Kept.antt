-- ===== src/Cbi/Depends/Kept.antt =====
-- Forms that are put together by `tab`, `taboption`, `option` and `depends` of cbi.js: their fields
-- depend on fields that there are.
use xluci.Prelude.{
  All-append, All-map, ℕ, ◌<◌, String, Bool, true, Option, none, some, List, [], ◌∷◌, ◌++◌, ◌≡◌,
  ◌⊎◌, refl, sym, arith, length, length-append, All, inl, inr, Option-cases,
}
use mathlib.Core.Path.{subst}
use xluci.Prelude.Dict.{Dict, put}
use xluci.Cbi.Field.{Widget, Given, Condition, Field, init_field}
use xluci.Cbi.Form.{Tab, Form, init_form, tab, taboption, option, push_field}
use xluci.Cbi.Depends.{
  Target, dependency, known_only, modify, add_dependent, register, add_dependency, depends,
}
use xluci.Cbi.Depends.Known.{
  Known, KnownAll, IsForm, All-put, length-modify, modify-All, Known-put, known_only-Known,
  add_dependency-KnownAll, register-All, length-register,
}

-- Names under which fields stand lead to places that there are.
abbrev Places : ℕ → Dict ℕ → Type 0
Places n = All (λ e. e.1 < n)

pub init_form-IsForm :
    (uci_type : String) (readonly : Bool) (teasers : Option (List String))
    → IsForm (init_form uci_type readonly teasers)
unfolding init_form
init_form-IsForm uci_type readonly teasers = record { places = tt; known = tt }

pub tab-IsForm :
    (form : Form) (id : String) (selected : Bool) → IsForm form → IsForm (tab form id selected)
unfolding tab
tab-IsForm form id selected h = record { places = h.places; known = h.known }

with_field :
    (form : Form) (tabs : List Tab) (class : Widget) (name : String) (options : Given)
    → IsForm form
    → IsForm (record form {
      made = form.made ++ init_field class name options ∷ [];
      fields = put name (length form.made) form.fields;
      tabs = tabs;
    })
unfolding init_field
with_field form tabs class name options h = record {
  places =
      All-put (λ e. e.1 < length (form.made ++ init_field class name options ∷ [])) name
        (length form.made) form.fields
        (omega (arith, length-append form.made (init_field class name options ∷ [])))
        (All-map (λ e. e.1 < length form.made)
          (λ e. e.1 < length (form.made ++ init_field class name options ∷ [])) form.fields
          (λ e lt. omega (arith, lt, length-append form.made (init_field class name options ∷ [])))
          h.places);
  known =
      All-append (KnownAll (put name (length form.made) form.fields)) form.made
        (init_field class name options ∷ [])
        (All-map (KnownAll form.fields) (KnownAll (put name (length form.made) form.fields))
          form.made
          (λ f k.
            All-map (Known form.fields) (Known (put name (length form.made) form.fields))
              f.dependencies (λ dep l. Known-put name (length form.made) form.fields dep l) k)
          h.known)
        (tt, tt);
}

-- The form after an operation that may throw, which leaves it as it was.
abbrev pub after : Form → Option (ℕ × Form) → Form
after form none = form
after form (some (w, form')) = form'

taboption-pushed :
    (form : Form) (tabid : String) (class : Widget) (name : String) (options : Given)
    (tabs : List Tab)
    → push_field form.tabs tabid (length form.made) ≡ some tabs
    → taboption form tabid (some class) name options
      ≡ some (
        length form.made,
        record form {
          made = form.made ++ init_field class name options ∷ [];
          fields = put name (length form.made) form.fields;
          tabs = tabs;
        },
      )
unfolding taboption
taboption-pushed form tabid class name options tabs e = ground (arith, e)

pub taboption-IsForm :
    (form : Form) (tabid : String) (widget : Option Widget) (name : String) (options : Given)
    (old : Form)
    → IsForm form
    → IsForm old
    → IsForm (after old (taboption form tabid widget name options))
unfolding taboption
taboption-IsForm form tabid none name options old h k =
    let throws : taboption form tabid none name options ≡ none = ground arith in
    subst (λ x. IsForm (after old x)) (sym throws) k
taboption-IsForm form tabid (some class) name options old h k =
    elim (Option-cases (push_field form.tabs tabid (length form.made))) [
      | inl e ↦
          let throws : taboption form tabid (some class) name options ≡ none = ground (arith, e) in
          subst (λ x. IsForm (after old x)) (sym throws) k
      | inr (tabs, e) ↦
          subst (λ x. IsForm (after old x))
            (sym (taboption-pushed form tabid class name options tabs e))
            (with_field form tabs class name options h)
    ]

option_of :
    (form : Form) (widget : Option Widget) (name : String) (options : Given)
    → (option form widget name options
        ≡ taboption (tab form "__default__" true) "__default__" widget name options)
      ⊎ (option form widget name options ≡ taboption form "__default__" widget name options)
unfolding option
option_of form widget name options =
    elim form.tabs
      as (λ l.
        (elim l [
          | [] ↦ taboption (tab form "__default__" true) "__default__" widget name options
          | t ∷ tabs ↦ taboption form "__default__" widget name options
        ]
          ≡ taboption (tab form "__default__" true) "__default__" widget name options)
        ⊎ (elim l [
          | [] ↦ taboption (tab form "__default__" true) "__default__" widget name options
          | t ∷ tabs ↦ taboption form "__default__" widget name options
        ]
            ≡ taboption form "__default__" widget name options)) [
              | [] ↦ inl refl
              | t ∷ tabs ↦ inr refl
            ]

pub option-IsForm :
    (form : Form) (widget : Option Widget) (name : String) (options : Given)
    → IsForm form
    → IsForm (after form (option form widget name options))
option-IsForm form widget name options h = elim (option_of form widget name options) [
  | inl e ↦
      subst (λ x. IsForm (after form x)) (sym e)
        (taboption-IsForm (tab form "__default__" true) "__default__" widget name options form
          (tab-IsForm form "__default__" true h) h)
  | inr e ↦
      subst (λ x. IsForm (after form x)) (sym e)
        (taboption-IsForm form "__default__" widget name options form h h)
]

-- A change of one field object that keeps what it depends on.
pub modify-IsForm :
    (form : Form) (g : Field → Field) (w : ℕ)
    → ((f : Field) → KnownAll form.fields f → KnownAll form.fields (g f))
    → IsForm form
    → IsForm (record form { made = modify g w form.made })
modify-IsForm form g w k h = record {
  places = subst (λ n. Places n form.fields) (sym (length-modify g w form.made)) h.places;
  known = modify-All (KnownAll form.fields) g w form.made k h.known;
}

-- A dependency on names of fields is registered and kept.
depend_on :
    (form : Form) (this : ℕ) (name : String) (dep known : Dict Condition) (add : Bool)
    → Known form.fields known
    → IsForm form
    → IsForm (record form {
      made = modify (add_dependency known add) this (register form.fields name this dep form.made);
    })
unfolding add_dependent
depend_on form this name dep known add k h =
    let made' = register form.fields name this dep form.made in
    modify-IsForm (record form { made = made' }) (add_dependency known add) this
      (λ f l. add_dependency-KnownAll form.fields known add f k l)
      (record {
        places =
            subst (λ n. Places n form.fields)
              (sym (length-register form.fields name this dep form.made)) h.places;
        known =
            register-All (KnownAll form.fields) form.fields name this dep form.made (λ f k. k)
              h.known;
      })

-- `depends` keeps only names of fields of the section.
pub depends-IsForm :
    (form : Form) (this : ℕ) (name : String) (d : Target) (add : Bool)
    → IsForm form
    → IsForm (depends form this name d add)
unfolding depends
depends-IsForm form this name d add h =
    let known = known_only form.fields (dependency d) in
    elim known
        as (λ l.
          Known form.fields l
          → IsForm (elim l [
            | [] ↦ form
            | x ∷ rest ↦ record form {
              made =
                  modify (add_dependency (x ∷ rest) add) this
                    (register form.fields name this (dependency d) form.made);
            }
          ])) [
            | [] ↦ λ k. h
            | x ∷ rest ↦ λ k. depend_on form this name (dependency d) (x ∷ rest) add k h
          ]
      (known_only-Known form.fields (dependency d))
