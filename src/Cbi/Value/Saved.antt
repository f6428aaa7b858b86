-- ===== src/Cbi/Value/Saved.antt =====
-- What `ucivalue` returns after the `save` of a field.
use text.Mathlib.Text.{◌==◌}
use xluci.Prelude.{
  String, Bool, true, false, Option, none, some, List, [], ◌∷◌, ◌≡◌, refl, sym, ◌∙◌, ap, arith,
  eq_iff, length, if◌then◌else◌, inl, inr, Bool-cases,
}
use xluci.Uci.Store.{Value, str, list, num, flag, State, is_meta}
use xluci.Uci.Access.{set_option, given}
use xluci.Uci.Access.ReadWrite.{writable, stored, get_option-set_option}
use xluci.Cbi.Js.{Js}
use xluci.Cbi.Run.{returns}
use xluci.Cbi.Field.{abstract_value, Field, Page, ucipath, base_ucivalue, field_id}
use xluci.Cbi.Value.{
  ucivalue, formvalue, nothing_if_empty, texts_differ, values_differ, saved_value, is_disabled,
  save_field,
}

texts_differ-same : (a b : List String) → length a ≡ length b → texts_differ a b ≡ false → a ≡ b
unfolding texts_differ
texts_differ-same [] [] n h = refl
texts_differ-same [] (y ∷ b) n h = absurd (ground (arith, n))
texts_differ-same (x ∷ a) [] n h = absurd (ground (arith, n))
texts_differ-same (x ∷ a) (y ∷ b) n h =
    let same : (x == y) ≡ true = ground (arith, h) in
    let rest : texts_differ a b ≡ false = ground (arith, h, same) in
    ap (λ z. z ∷ a) ((eq_iff x y).0 same)
    ∙ ap (λ l. y ∷ l) (texts_differ-same a b (omega (arith, n)) rest)

-- `changed` is false only for equal values.
pub values_differ-same : (a b : Option Value) → values_differ a b ≡ false → a ≡ b
unfolding values_differ
values_differ-same none none h = refl
values_differ-same none (some v) h = absurd (ground (arith, h))
values_differ-same (some (str s)) none h = absurd (ground (arith, h))
values_differ-same (some (num m)) none h = absurd (ground (arith, h))
values_differ-same (some (flag b)) none h = absurd (ground (arith, h))
values_differ-same (some (list a)) none h = absurd (ground (arith, h))
values_differ-same (some (str s)) (some (str t)) h =
    ap (λ x. some (str x)) ((eq_iff s t).0 (ground (arith, h)))
values_differ-same (some (num m)) (some (num n)) h = ground (arith, h)
values_differ-same (some (flag b)) (some (flag c)) h = ground (arith, h)
values_differ-same (some (list a)) (some (list b)) h =
    let n : length a ≡ length b = ground (arith, h) in
    ap (λ l. some (list l)) (texts_differ-same a b n (ground (arith, h, n)))
values_differ-same (some (str s)) (some (num n)) h = absurd (ground (arith, h))
values_differ-same (some (str s)) (some (flag n)) h = absurd (ground (arith, h))
values_differ-same (some (str s)) (some (list n)) h = absurd (ground (arith, h))
values_differ-same (some (num s)) (some (str n)) h = absurd (ground (arith, h))
values_differ-same (some (num s)) (some (flag n)) h = absurd (ground (arith, h))
values_differ-same (some (num s)) (some (list n)) h = absurd (ground (arith, h))
values_differ-same (some (flag s)) (some (num n)) h = absurd (ground (arith, h))
values_differ-same (some (flag s)) (some (str n)) h = absurd (ground (arith, h))
values_differ-same (some (flag s)) (some (list n)) h = absurd (ground (arith, h))
values_differ-same (some (list s)) (some (num n)) h = absurd (ground (arith, h))
values_differ-same (some (list s)) (some (flag n)) h = absurd (ground (arith, h))
values_differ-same (some (list s)) (some (str n)) h = absurd (ground (arith, h))

-- v, or `initial` where it is undefined
abbrev pub or_initial : Field → Option Value → Option Value
or_initial f none = f.options.initial
or_initial f (some v) = some v

module _ (js : Js) (page : Page) (conf type : String) (f : Field) (sid : String) (st : State) where
  -- A write to the entry of the field, which is no attribute, in a section that can be written.
  pub base_ucivalue-written :
      (val : Option Value)
      → is_meta (ucipath conf f sid).option ≡ false
      → writable st (ucipath conf f sid).config (ucipath conf f sid).section ≡ true
      → base_ucivalue conf
          (set_option st
            (ucipath conf f sid).config
            (ucipath conf f sid).section
            (ucipath conf f sid).option
            val)
          f
          sid
        ≡ or_initial f (stored st (ucipath conf f sid).config (ucipath conf f sid).section val)
  unfolding base_ucivalue
  base_ucivalue-written val plain w =
      let p = ucipath conf f sid in
      ground (
        arith,
        get_option-set_option st p.config p.section p.option val p.config p.section p.option plain,
        w,
        eq_iff p.config p.config,
        eq_iff p.section p.section,
        eq_iff p.option p.option,
      )

  -- What `val` returned, without the empty text, is stored as it is.
  pub stored-nonempty :
      (c s : String) (val : Option Value) → nothing_if_empty val ≡ val → stored st c s val ≡ val
  unfolding stored given nothing_if_empty
  stored-nonempty c s none h = ground arith
  stored-nonempty c s (some (str t)) h = ground (arith, h)
  stored-nonempty c s (some (list t)) h = ground arith
  stored-nonempty c s (some (num t)) h = ground arith
  stored-nonempty c s (some (flag t)) h = ground arith

  nothing_if_empty-twice :
      (v : Option Value) → nothing_if_empty (nothing_if_empty v) ≡ nothing_if_empty v
  unfolding nothing_if_empty
  nothing_if_empty-twice none = refl
  nothing_if_empty-twice (some (str t)) = ground arith
  nothing_if_empty-twice (some (list t)) = refl
  nothing_if_empty-twice (some (num t)) = refl
  nothing_if_empty-twice (some (flag t)) = refl

  pub stored-none : (c s : String) → stored st c s none ≡ none
  unfolding stored given
  stored-none c s = ground arith

  or_initial-base :
      (v : Option Value)
      → base_ucivalue conf st f sid ≡ v
      → or_initial f v ≡ base_ucivalue conf st f sid
  unfolding base_ucivalue
  or_initial-base none h = ground (arith, h)
  or_initial-base (some v) h = sym h

  save_field-disabled :
      is_disabled f sid ≡ some true
      → save_field js page conf type f sid st
        ≡ returns (
            if f.options.keep
            then st
            else set_option st
                (ucipath conf f sid).config
                (ucipath conf f sid).section
                (ucipath conf f sid).option
                none)
  unfolding save_field
  save_field-disabled e = ground (arith, e)

  pub save_field-enabled :
      is_disabled f sid ≡ some false
      → save_field js page conf type f sid st
        ≡ returns (
            if values_differ (ucivalue js conf st f sid) (formvalue js page conf type st f sid)
            then set_option st
                (ucipath conf f sid).config
                (ucipath conf f sid).section
                (ucipath conf f sid).option
                (saved_value js f (formvalue js page conf type st f sid))
            else st)
  unfolding save_field
  save_field-enabled e = ground (arith, e)

  module _ (is_input : f.widget ≡ abstract_value) where
    formvalue-input :
        formvalue js page conf type st f sid
        ≡ nothing_if_empty (page.val (field_id conf type f sid))
    unfolding formvalue
    formvalue-input = rw is_input refl

    pub ucivalue-input : (st' : State) → ucivalue js conf st' f sid ≡ base_ucivalue conf st' f sid
    unfolding ucivalue
    ucivalue-input st' = rw is_input refl

    saved_value-input : (val : Option Value) → saved_value js f val ≡ val
    unfolding saved_value
    saved_value-input val = rw is_input refl

    -- The store that the `save` of an input field leaves, which was rendered and is disabled or not.
    abbrev pub saved : Bool → State
    saved off =
        let p = ucipath conf f sid in
        let val = nothing_if_empty (page.val (field_id conf type f sid)) in
        if off
        then (if f.options.keep then st else set_option st p.config p.section p.option none)
        else if values_differ (ucivalue js conf st f sid) val
        then set_option st p.config p.section p.option val
        else st

    pub save_field-returns :
        (off : Bool)
        → is_disabled f sid ≡ some off
        → save_field js page conf type f sid st ≡ returns (saved off)
    save_field-returns true e = save_field-disabled e
    save_field-returns false e = save_field-enabled e ∙ rw (formvalue-input, saved_value-input) refl

    -- After the `save` of a rendered input field of a section that can be written, its stored value is that
    -- of the form, or the initial one if the input is empty; where the field is disabled, the stored value
    -- is as before if it is kept, else the initial one.
    pub ucivalue-saved :
        (off : Bool)
        → is_meta (ucipath conf f sid).option ≡ false
        → writable st (ucipath conf f sid).config (ucipath conf f sid).section ≡ true
        → ucivalue js conf (saved off) f sid ≡ (
            if off
            then (if f.options.keep then ucivalue js conf st f sid else f.options.initial)
            else or_initial f (nothing_if_empty (page.val (field_id conf type f sid))))
    ucivalue-saved true plain w =
        let p = ucipath conf f sid in
        let unset =
          base_ucivalue-written none plain w ∙ ap (or_initial f) (stored-none p.config p.section) in
        ground (arith, unset, ucivalue-input (set_option st p.config p.section p.option none))
    ucivalue-saved false plain w =
        let p = ucipath conf f sid in
        let val = nothing_if_empty (page.val (field_id conf type f sid)) in
        let written =
          base_ucivalue-written val plain w
          ∙ ap (or_initial f) (
              stored-nonempty p.config p.section val
                (nothing_if_empty-twice (page.val (field_id conf type f sid)))) in
        elim (Bool-cases (values_differ (ucivalue js conf st f sid) val)) [
          | inl changed ↦ ground (
            arith,
            changed,
            written,
            ucivalue-input (set_option st p.config p.section p.option val),
          )
          | inr same ↦ ground (
            arith,
            same,
            or_initial-base val
                (sym (ucivalue-input st) ∙ values_differ-same (ucivalue js conf st f sid) val same),
            ucivalue-input st,
          )
        ]
