-- ===== src/Cbi/Handlers.antt =====
-- What the buttons of a section do, and the verdict on a field: the handlers of cbi.js on the store.
use text.Mathlib.Text.{◌==◌ as str_eq}
use xluci.Prelude.{
  ℕ, String, Bool, true, false, not, ◌||◌, Option, none, some, List, [], ◌∷◌, if◌then◌else◌,
}
use xluci.Prelude.Dict.{Dict, lookup, put}
use xluci.Uci.Store.{Value, State}
use xluci.Uci.Order.{swap}
use xluci.Cbi.Js.{Js}
use xluci.Cbi.Run.{Run, returns, throws, then_run}
use xluci.Cbi.Field.{Field, Page, or_name}
use xluci.Cbi.Value.{is_disabled, textvalue}
use xluci.Cbi.Form.{Form, teaser_fields}
use xluci.Cbi.Tree.{Part, add_section, remove_section}
use xluci.Cbi.Map.{FormMap, save_map}

-- An index of a panel: -1, or a place.
pub data Panel : Type 0 where
  minus_one : Panel
  place : ℕ → Panel

-- parent_sid || '__top__'
unfoldable pub panel_key : Option String → String
unfolding or_name
panel_key sid = or_name sid "__top__"

-- getPanelIndex(parent_sid)
unfoldable pub get_panel_index : Dict Panel → Option String → Panel
unfolding panel_key
get_panel_index active sid = elim (lookup (panel_key sid) active) [ none ↦ place 0 | some i ↦ i ]

-- setPanelIndex(parent_sid, new_index)
unfoldable pub set_panel_index : Dict Panel → Option String → Panel → Dict Panel
unfolding panel_key
set_panel_index active sid i = put (panel_key sid) i active

unfoldable pub is_empty_name : Option String → Bool
is_empty_name none = false
is_empty_name (some n) = str_eq n ""

-- What `handleAdd` leaves: the panels, the name of the new section, if there is one, and the store,
-- which an exception of the `save` of the form leaves as it is then.
pub record Added : Type 0 where
  pub active_panel : Dict Panel
  pub sid : Option String
  pub store : Run

module _ (js : Js) (page : Page) (m : FormMap) where
  -- handleAdd, in the item of the section `parent`: the form is saved and the section added, unless the
  -- button is disabled or the name empty. Nothing is added if no free name is drawn within the fuel.
  unfoldable pub handle_add :
      ℕ → (ℕ → String) → Bool → Part → Dict Panel → Option String → Option String → State → Added
  unfolding is_empty_name set_panel_index save_map add_section
  handle_add fuel draw disabled part active parent name st =
      if disabled || is_empty_name name
      then record { active_panel = active; sid = none; store = returns st }
      else (let active' = set_panel_index active parent minus_one in
          elim (save_map js page m st) [
            | throws st' ↦ record { active_panel = active'; sid = none; store = throws st' }
            | returns saved ↦ elim (add_section fuel draw m.uci_package part name saved) [
              | none ↦ record { active_panel = active'; sid = none; store = returns saved }
              | some (sid, st') ↦ record {
                active_panel = active';
                sid = some sid;
                store = returns st';
              }
            ]
          ])

  -- handleRemove, of the first section around the button: the form is saved and the section removed.
  unfoldable pub handle_remove : List String → State → Run
  unfolding save_map remove_section
  handle_remove [] st = returns st
  handle_remove (sid ∷ sids) st =
      then_run (save_map js page m st) (λ st'. returns (remove_section m.uci_package sid st'))

  -- handleSort, of an item and its neighbour, where there are both: they are swapped and the form is saved.
  unfoldable pub handle_sort : Option String → Option String → State → Run
  unfolding swap save_map
  handle_sort (some cur) (some new) st = save_map js page m (swap st m.uci_package cur new).0
  handle_sort cur new st = returns st

-- The verdict of `handleValidate` on what was typed: `check` is the compiled data type, if there is
-- one, and `others` whether another element of the field has an error.
unfoldable pub verdict : Bool → Option (String → Bool) → Bool → String → Bool
verdict opt none others val = true
verdict opt (some check) others val =
    if str_eq val ""
    then (if opt then not others else false)
    else if check val
    then not others
    else false

-- AbstractValue.validate(sid), where `error` is the message that is left; `none` where it throws
unfoldable pub validate_field : Field → String → String → Option Bool
unfolding is_disabled
validate_field f sid error = elim (is_disabled f sid) [
  | none ↦ none
  | some off ↦ some (off || str_eq error "")
]

-- options.caption || name
unfoldable pub caption : Field → String
unfolding or_name
caption f = or_name f.options.caption f.name

-- The captions and values of teaser(sid), between ' | '.
unfoldable pub teaser_values :
    Js
    → (String → String)
    → Page
    → String
    → String
    → State
    → String
    → List Field
    → List (String × Value)
unfolding is_disabled textvalue caption
teaser_values js tr page conf type st sid [] = []
teaser_values js tr page conf type st sid (f ∷ tf) =
    let rest = teaser_values js tr page conf type st sid tf in
    let all : List (String × Value) = elim (textvalue js tr page conf type st f sid) [
      | none ↦ rest
      | some v ↦ (caption f, v) ∷ rest
    ] in
    elim (is_disabled f sid) [ none ↦ all | some off ↦ if off then rest else all ]

unfoldable pub teaser :
    Js → (String → String) → Page → String → State → Form → String → List (String × Value)
unfolding teaser_fields teaser_values
teaser js tr page conf st form sid =
    teaser_values js tr page conf form.uci_type st sid (teaser_fields form)
