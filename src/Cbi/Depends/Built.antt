-- ===== src/Cbi/Depends/Built.antt =====
-- What a page does with a section of a form: it puts it together, renders it and toggles its fields.
use mathlib.Core.Path.{subst}
use xluci.Prelude.{
  ℕ, String, Bool, false, not, Option, none, some, List, [], ◌∷◌, ◌≡◌, sym, get_elem?, arith, inl,
  inr, Option-cases, ◌⊎◌,
}
use xluci.Prelude.Dict.{lookup}
use xluci.Uci.Store.{State}
use xluci.Cbi.Js.{Js}
use xluci.Cbi.Field.{Widget, Given, Field, Page}
use xluci.Cbi.Form.{Form, init_form, tab, taboption, option}
use xluci.Cbi.Depends.{
  Target, depends, render_field, toggle, value_of, modify, set_disabled, any_met,
}
use xluci.Cbi.Depends.Known.{IsForm}
use xluci.Cbi.Depends.Kept.{
  after, init_form-IsForm, tab-IsForm, taboption-IsForm, option-IsForm, modify-IsForm,
  depends-IsForm,
}
use xluci.Cbi.Depends.Toggled.{List-cases, Decides, toggle_iff}

pub data Step : Type 0 where
  to_tab : String → Bool → Step
  to_taboption : String → Option Widget → String → Given → Step
  to_option : Option Widget → String → Given → Step
  to_depends : ℕ → String → Target → Bool → Step
  to_render : String → ℕ → Step
  to_toggle : Js → Page → String → State → ℕ → Field → String → Step

abbrev after_toggle : Form → Option (Bool × Form) → Form
after_toggle form none = form
after_toggle form (some (b, form')) = form'

unfoldable pub step : Form → Step → Form
step form (to_tab id selected) = tab form id selected
step form (to_taboption tabid widget name options) =
    after form (taboption form tabid widget name options)
step form (to_option widget name options) = after form (option form widget name options)
step form (to_depends this name d add) = depends form this name d add
step form (to_render sid this) = render_field sid this form
step form (to_toggle js page conf st this f sid) =
    after_toggle form (toggle js page conf st form this f sid)

unfoldable pub steps : Form → List Step → Form
unfolding step
steps form [] = form
steps form (s ∷ l) = steps (step form s) l

toggle_form :
    (js : Js) (page : Page) (conf : String) (st : State) (form : Form) (this : ℕ) (f : Field)
    (sid : String)
    → (after_toggle form (toggle js page conf st form this f sid) ≡ form)
      ⊎ ((b : Bool) × (after_toggle form (toggle js page conf st form this f sid)
            ≡ record form { made = modify (set_disabled sid b) this form.made }))
unfolding toggle
toggle_form js page conf st form this f sid = elim (List-cases f.dependencies) [
  | inl e ↦ inl (ground (arith, e))
  | inr (d, (l, e)) ↦ elim (Option-cases (any_met js (value_of js page conf st form sid) (d ∷ l))) [
    | inl m ↦ inl (ground (arith, e, m))
    | inr (b, m) ↦ elim (Option-cases (lookup sid f.instance)) [
      | inl r ↦ inl (ground (arith, e, m, r))
      | inr (disabled, r) ↦ inr (not b, ground (arith, e, m, r))
    ]
  ]
]

toggle-IsForm :
    (js : Js) (page : Page) (conf : String) (st : State) (form : Form) (this : ℕ) (f : Field)
    (sid : String)
    → IsForm form
    → IsForm (after_toggle form (toggle js page conf st form this f sid))
unfolding set_disabled
toggle-IsForm js page conf st form this f sid h =
    elim (toggle_form js page conf st form this f sid) [
      | inl e ↦ subst IsForm (sym e) h
      | inr (b, e) ↦
          subst IsForm (sym e) (modify-IsForm form (set_disabled sid b) this (λ f k. k) h)
    ]

step-IsForm : (form : Form) (s : Step) → IsForm form → IsForm (step form s)
unfolding step render_field set_disabled
step-IsForm form (to_tab id selected) h = tab-IsForm form id selected h
step-IsForm form (to_taboption tabid widget name options) h =
    taboption-IsForm form tabid widget name options form h h
step-IsForm form (to_option widget name options) h = option-IsForm form widget name options h
step-IsForm form (to_depends this name d add) h = depends-IsForm form this name d add h
step-IsForm form (to_render sid this) h =
    modify-IsForm form (set_disabled sid false) this (λ f k. k) h
step-IsForm form (to_toggle js page conf st this f sid) h =
    toggle-IsForm js page conf st form this f sid h

-- Whatever a page does with a section, its fields lead to objects that were made, and every dependency
-- names fields of the section.
pub steps-IsForm : (form : Form) (l : List Step) → IsForm form → IsForm (steps form l)
unfolding steps
steps-IsForm form [] h = h
steps-IsForm form (s ∷ l) h = steps-IsForm (step form s) l (step-IsForm form s h)

-- In a section that was put together, rendered and toggled in any way, `toggle` of a rendered field
-- never throws: it returns true exactly if the field depends on none or one of its dependencies has all
-- its conditions met, and a field that depends on some is active then and disabled otherwise.
pub toggle-built :
    (js : Js) (page : Page) (conf : String) (st : State) (uci_type : String) (readonly : Bool)
    (teasers : Option (List String)) (l : List Step) (sid : String) (this : ℕ) (f : Field)
    (disabled : Bool)
    → get_elem? (steps (init_form uci_type readonly teasers) l).made this ≡ some f
    → lookup sid f.instance ≡ some disabled
    → Decides js
        (value_of js page conf st (steps (init_form uci_type readonly teasers) l) sid)
        this
        f
        sid
        (toggle js page conf st (steps (init_form uci_type readonly teasers) l) this f sid)
toggle-built js page conf st uci_type readonly teasers l sid this f disabled at rendered =
    let form = init_form uci_type readonly teasers in
    toggle_iff js page conf st (steps form l) sid this f disabled
      (steps-IsForm form l (init_form-IsForm uci_type readonly teasers)) at rendered
