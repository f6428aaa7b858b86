-- ===== src/Cbi/Form.antt =====
-- The fields and tabs of a section of a form: `AbstractSection` of cbi.js, without its subsections.
use text.Mathlib.Text.{◌==◌ as str_eq}
use xluci.Prelude.{
  ℕ, zero, suc, String, Bool, true, false, not, Option, none, some, List, [], ◌∷◌, ◌++◌, length,
  get_elem?, if◌then◌else◌,
}
use xluci.Prelude.Dict.{Dict, lookup, put}
use xluci.Cbi.Field.{Widget, Field, Given, init_field}

-- An element of `tabs`; its fields are places in the list of the section's fields.
pub record Tab : Type 0 where
  pub id : String
  pub fields : List ℕ

-- A section: `made` has every field object that was made, `fields` the place of the last one of each
-- name.
pub record Form : Type 0 where
  pub uci_type : String
  pub made : List Field
  pub fields : Dict ℕ
  pub tabs : List Tab
  -- tabs.selected
  pub selected : Option ℕ
  pub readonly : Bool
  -- options.teasers: the names of fields
  pub teasers : Option (List String)

-- init(uci_type, options) of TypedSection
unfoldable pub init_form : String → Bool → Option (List String) → Form
init_form uci_type readonly teasers = record {
  uci_type = uci_type;
  made = [];
  fields = [];
  tabs = [];
  selected = none;
  readonly = readonly;
  teasers = teasers;
}

-- tab(options)
unfoldable pub tab : Form → String → Bool → Form
tab form id selected = record form {
  selected = if selected then some (length form.tabs) else form.selected;
  tabs = form.tabs ++ record { id = id; fields = [] } ∷ [];
}

-- tab.fields.push(w), of the first tab of the name; `none` if there is none
unfoldable pub push_field : List Tab → String → ℕ → Option (List Tab)
push_field [] tabid w = none
push_field (t ∷ tabs) tabid w =
    let rest = push_field tabs tabid w in
    if str_eq t.id tabid
    then some (record t { fields = t.fields ++ w ∷ [] } ∷ tabs)
    else (elim rest [ none ↦ none | some l ↦ some (t ∷ l) ])

-- taboption(tabid, widget, name, options): the place of the new field and the form; `none` where it
-- throws
unfoldable pub taboption : Form → String → Option Widget → String → Given → Option (ℕ × Form)
unfolding push_field init_field
taboption form tabid widget name options =
    let w = length form.made in
    elim (push_field form.tabs tabid w) [
      | none ↦ none
      | some tabs ↦ elim widget [
        | none ↦ none
        | some class ↦ some (
          w,
          record form {
            made = form.made ++ init_field class name options ∷ [];
            fields = put name w form.fields;
            tabs = tabs;
          },
        )
      ]
    ]

-- option(widget, name, options)
unfoldable pub option : Form → Option Widget → String → Given → Option (ℕ × Form)
unfolding tab taboption
option form widget name options = elim form.tabs [
  | [] ↦ taboption (tab form "__default__" true) "__default__" widget name options
  | t ∷ tabs ↦ taboption form "__default__" widget name options
]

-- active(sid)
unfoldable pub active : String → Field → Bool
active sid f = elim (lookup sid f.instance) [ none ↦ false | some disabled ↦ not disabled ]

-- Whether the fields at the places have an active one.
unfoldable pub any_active : List Field → String → List ℕ → Bool
unfolding active
any_active made sid [] = false
any_active made sid (w ∷ fields) =
    let rest = any_active made sid fields in
    elim (get_elem? made w) [ none ↦ rest | some f ↦ if active sid f then true else rest ]

-- tabtoggle(sid): the tabs, and whether each is shown
unfoldable pub tabs_shown : List Field → String → List Tab → List (String × Bool)
unfolding any_active
tabs_shown made sid [] = []
tabs_shown made sid (t ∷ tabs) = (t.id, any_active made sid t.fields) ∷ tabs_shown made sid tabs

unfoldable pub tabtoggle : Form → String → List (String × Bool)
unfolding tabs_shown
tabtoggle form sid = tabs_shown form.made sid form.tabs

-- The fields at the places.
unfoldable pub at_places : List Field → List ℕ → List Field
at_places made [] = []
at_places made (w ∷ fields) =
    let rest = at_places made fields in elim (get_elem? made w) [ none ↦ rest | some f ↦ f ∷ rest ]

-- The fields of the tabs, in the order of the tabs.
unfoldable pub tab_fields : List Field → List Tab → List Field
unfolding at_places
tab_fields made [] = []
tab_fields made (t ∷ tabs) = at_places made t.fields ++ tab_fields made tabs

unfoldable pub packages_of : List Field → List String
packages_of [] = []
packages_of (f ∷ fields) =
    let rest = packages_of fields in
    elim f.options.uci_package [ none ↦ rest | some p ↦ if str_eq p "" then rest else p ∷ rest ]

-- findAdditionalUCIPackages()
unfoldable pub additional_packages : Form → List String
unfolding tab_fields packages_of
additional_packages form = packages_of (tab_fields form.made form.tabs)

unfoldable pub take_fields : ℕ → List Field → List Field
take_fields zero fields = []
take_fields (suc n) [] = []
take_fields (suc n) (f ∷ fields) = f ∷ take_fields n fields

-- The named fields that there are.
unfoldable pub named_fields : Form → List String → List Field
named_fields form [] = []
named_fields form (n ∷ names) =
    let rest = named_fields form names in
    elim (lookup n form.fields) [
      | none ↦ rest
      | some w ↦ elim (get_elem? form.made w) [ none ↦ rest | some f ↦ f ∷ rest ]
    ]

-- tf, of teaser(sid): the fields of the teaser, else the first six
unfoldable pub teaser_fields : Form → List Field
unfolding named_fields tab_fields take_fields
teaser_fields form = elim form.teasers [
  | some names ↦ named_fields form names
  | none ↦ take_fields 6 (tab_fields form.made form.tabs)
]
