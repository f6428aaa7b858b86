-- ===== src/Cbi/Value/Checked.antt =====
-- What `CheckboxValue` reads after its `save`.
use text.Mathlib.Text.{◌==◌}
use xluci.Prelude.{
  String, Bool, true, false, ◌&&◌, Option, none, some, ◌≡◌, refl, sym, ◌∙◌, ap, arith, eq_iff,
  if◌then◌else◌, inl, inr, Option-cases, Bool-cases, ◌⊎◌,
}
use xluci.Uci.Store.{Value, str, flag, State, is_meta}
use xluci.Uci.Access.{set_option}
use xluci.Uci.Access.ReadWrite.{writable}
use xluci.Cbi.Js.{Js, is_true, loosely, loosely_equal, as_number, numbers_equal}
use xluci.Cbi.Run.{returns}
use xluci.Cbi.Field.{checkbox_value, Field, Page, ucipath, base_ucivalue, field_id}
use xluci.Cbi.Value.{
  checkbox_value_of, checkbox_formvalue, ucivalue, formvalue, nothing_if_empty, values_differ,
  saved_value, is_disabled, save_field,
}
use xluci.Cbi.Value.Saved.{
  or_initial, base_ucivalue-written, stored-nonempty, stored-none, save_field-enabled,
  values_differ-same,
}

module _ (js : Js) (conf : String) (f : Field) (sid : String)
    (is_checkbox : f.widget ≡ checkbox_value) where
  checked_value-formvalue :
      (page : Page) (type : String) (st : State)
      → (b : Bool) × (formvalue js page conf type st f sid ≡ some (flag b))
  unfolding formvalue checkbox_formvalue
  checked_value-formvalue page type st =
      elim (Option-cases (page.checked (field_id conf type f sid))) [
        | inl e ↦ (is_true f.options.initial, ground (arith, is_checkbox, e))
        | inr (b, e) ↦ (b, ground (arith, is_checkbox, e))
      ]

  ucivalue-flag :
      (st : State) (b : Bool)
      → base_ucivalue conf st f sid ≡ some (flag b)
      → ucivalue js conf st f sid ≡ some (flag b)
  unfolding ucivalue checkbox_value_of
  ucivalue-flag st b e = ground (arith, is_checkbox, e)

  ucivalue-text :
      (st : State) (on s : String)
      → f.options.enabled ≡ some on
      → base_ucivalue conf st f sid ≡ some (str s)
      → ucivalue js conf st f sid ≡ some (flag (s == on))
  unfolding ucivalue checkbox_value_of loosely_equal loosely
  ucivalue-text st on s k e = ground (arith, is_checkbox, k, e)

flags_equal : (js : Js) (b c : Bool) → loosely js (flag b) (flag c) ≡ true → b ≡ c
unfolding loosely as_number numbers_equal
flags_equal js b c h = ground (arith, h)

module _ (js : Js) (f : Field) (on off : String) where
  saved_value-checkbox :
      (b : Bool)
      → f.widget ≡ checkbox_value
      → f.options.enabled ≡ some on
      → f.options.disabled ≡ some off
      → (f.options.initial ≡ none) ⊎ ((c : Bool) × (f.options.initial ≡ some (flag c)))
      → (saved_value js f (some (flag b)) ≡ some (str (if b then on else off)))
        ⊎ ((saved_value js f (some (flag b)) ≡ none) × (f.options.initial ≡ some (flag b)))
  unfolding saved_value loosely_equal is_true
  saved_value-checkbox b w e d (inl i) = inl (rw (w, e, d, i) (ground arith))
  saved_value-checkbox b w e d (inr (c, i)) =
      elim (Bool-cases (f.options.optional && loosely js (flag b) (flag c))) [
        | inl same ↦
            let b_is_c : b ≡ c = flags_equal js b c (ground (arith, same)) in
            inr (rw (w, e, d, i, same) refl, i ∙ ap (λ x. some (flag x)) (sym b_is_c))
        | inr other ↦ inl (rw (w, e, d, i, other) (ground arith))
      ]

module _ (js : Js) (page : Page) (conf type : String) (f : Field) (sid : String) (st : State)
    (on off : String) where
  save_field-saves :
      {val : Option Value}
      → is_disabled f sid ≡ some false
      → values_differ (ucivalue js conf st f sid) (formvalue js page conf type st f sid) ≡ true
      → saved_value js f (formvalue js page conf type st f sid) ≡ val
      → save_field js page conf type f sid st
        ≡ returns (
            set_option st
              (ucipath conf f sid).config
              (ucipath conf f sid).section
              (ucipath conf f sid).option
              val)
  save_field-saves enabled changed is =
      save_field-enabled js page conf type f sid st enabled ∙ ground (arith, changed, is)

  -- The `save` of a check box that was rendered and is enabled, in a section that can be written, returns,
  -- and the stored value then is what the box shows; its two texts are different and not empty, and its
  -- initial value is a boolean if it has one.
  pub ucivalue-save_checkbox :
      f.widget ≡ checkbox_value
      → f.options.enabled ≡ some on
      → f.options.disabled ≡ some off
      → (on == "") ≡ false
      → (off == "") ≡ false
      → (off == on) ≡ false
      → (f.options.initial ≡ none) ⊎ ((c : Bool) × (f.options.initial ≡ some (flag c)))
      → is_disabled f sid ≡ some false
      → is_meta (ucipath conf f sid).option ≡ false
      → writable st (ucipath conf f sid).config (ucipath conf f sid).section ≡ true
      → (st' : State) × (save_field js page conf type f sid st ≡ returns st')
        × (ucivalue js conf st' f sid ≡ formvalue js page conf type st f sid)
  unfolding nothing_if_empty
  ucivalue-save_checkbox w e d on_given off_given differ i enabled plain can =
      let p = ucipath conf f sid in
      let (b, shows) = checked_value-formvalue js conf f sid w page type st in
      let text = if b then on else off in
      let saved = saved_value js f (formvalue js page conf type st f sid) in
      elim (Bool-cases
        (values_differ (ucivalue js conf st f sid) (formvalue js page conf type st f sid))) [
          | inl changed ↦ elim (saved_value-checkbox js f on off b w e d i) [
            | inl t ↦
                let text_given : nothing_if_empty (some (str text)) ≡ some (str text) =
                  ground (arith, on_given, off_given) in
                let written : base_ucivalue conf
                      (set_option st p.config p.section p.option (some (str text))) f sid
                    ≡ some (str text) =
                  base_ucivalue-written js page conf type f sid st (some (str text)) plain can
                  ∙ ap (or_initial f) (
                      stored-nonempty js page conf type f sid st p.config p.section
                        (some (str text)) text_given) in
                let read : (text == on) ≡ b = ground (arith, differ, eq_iff on on) in
                (
                  set_option st p.config p.section p.option (some (str text)),
                  save_field-saves enabled changed (ap (saved_value js f) shows ∙ t),
                  ucivalue-text js conf f sid w
                        (set_option st p.config p.section p.option (some (str text))) on text e
                        written
                      ∙ (ap (λ x. some (flag x)) read ∙ sym shows),
                )
            | inr (t, is_initial) ↦
                let written : base_ucivalue conf (set_option st p.config p.section p.option none) f
                      sid
                    ≡ some (flag b) =
                  base_ucivalue-written js page conf type f sid st none plain can
                  ∙ (ap (or_initial f) (stored-none js page conf type f sid st p.config p.section)
                      ∙ is_initial) in
                (
                  set_option st p.config p.section p.option none,
                  save_field-saves enabled changed (ap (saved_value js f) shows ∙ t),
                  ucivalue-flag js conf f sid w (set_option st p.config p.section p.option none) b
                        written
                      ∙ sym shows,
                )
          ]
          | inr same ↦ (
            st,
            save_field-enabled js page conf type f sid st enabled ∙ ground (arith, same),
            values_differ-same _ _ same,
          )
        ]
