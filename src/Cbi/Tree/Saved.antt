-- ===== src/Cbi/Tree/Saved.antt =====
-- What the fields of a section read after its `save`.
use text.Mathlib.Text.{◌==◌}
use mathlib.Core.Path.{subst}
use xluci.Prelude.{
  ℕ, String, Bool, true, false, Option, none, some, List, [], ◌∷◌, ◌≡◌, refl, sym, ◌∙◌, ap, arith,
  eq_iff, get_elem?, if◌then◌else◌, All, inl, inr, Option-cases, Bool-cases,
}
use xluci.Prelude.Dict.{Dict, lookup}
use xluci.Uci.Store.{Value, State, is_meta}
use xluci.Uci.Access.{get_option}
use xluci.Uci.Access.ReadWrite.{writable}
use xluci.Uci.Save.Sets.{Distinct, Distinct2}
use xluci.Cbi.Js.{Js}
use xluci.Cbi.Run.{returns, state_of}
use xluci.Cbi.Field.{abstract_value, Field, Page, ucipath, or_name, base_ucivalue, field_id}
use xluci.Cbi.Value.{ucivalue, nothing_if_empty, is_disabled, save_field, call_save}
use xluci.Cbi.Value.Saved.{or_initial, ucivalue-input, saved, save_field-returns, ucivalue-saved}
use xluci.Cbi.Tree.{save_fields}
use xluci.Cbi.Tree.Frame.{
  Kept, OtherFields, save_field-writes, save_field-Distinct2, save_field-Keeps, save_fields-Keeps,
}
use xluci.Cbi.Tree.Writable.{writable-set_option}

module _ (js : Js) (page : Page) (conf type : String) where
  writable-save_field :
      (f : Field) (sid : String) (st : State) (c s : String)
      → writable (state_of (save_field js page conf type f sid st)) c s ≡ writable st c s
  writable-save_field f sid st c s = elim (save_field-writes c s "" js page conf type f sid st) [
    | inl e ↦ ap (λ x. writable x c s) e
    | inr (val, e) ↦
        let p = ucipath conf f sid in
        ap (λ x. writable x c s) e ∙ writable-set_option st p.config p.section p.option val c s
  ]

  -- The field was rendered for the section and has no `save` of its own.
  abbrev pub Ready : String → Field → Type 0
  Ready sid f = (f.own_save ≡ none) × ((off : Bool) × (is_disabled f sid ≡ some off))

  save_field-state :
      (f : Field) (sid : String) (st : State) (off : Bool)
      → is_disabled f sid ≡ some off
      → save_field js page conf type f sid st
        ≡ returns (state_of (save_field js page conf type f sid st))
  unfolding save_field
  save_field-state f sid st true e = ground (arith, e)
  save_field-state f sid st false e = ground (arith, e)

  call_save-state :
      (f : Field) (sid : String) (st : State)
      → Ready sid f
      → call_save js page conf type f sid st
        ≡ returns (state_of (save_field js page conf type f sid st))
  unfolding call_save
  call_save-state f sid st (own, (off, e)) = rw (own, call_save) (save_field-state f sid st off e)

  module _ (made : List Field) (sid : String) where
    -- The fields at the places that the entries lead to are ready.
    abbrev pub AllReady : Dict ℕ → Type 0
    AllReady = All (λ e. (f : Field) → get_elem? made e.1 ≡ some f → Ready sid f)

    save_fields-step :
        (j : String) (v : ℕ) (fields : Dict ℕ) (st st' : State) (f : Field)
        → get_elem? made v ≡ some f
        → call_save js page conf type f sid st ≡ returns st'
        → save_fields js page conf type made ((j, v) ∷ fields) sid st
          ≡ save_fields js page conf type made fields sid st'
    unfolding save_fields
    save_fields-step j v fields st st' f found e = ground (arith, found, e)

    save_fields-gone :
        (j : String) (v : ℕ) (fields : Dict ℕ) (st : State)
        → get_elem? made v ≡ none
        → save_fields js page conf type made ((j, v) ∷ fields) sid st
          ≡ save_fields js page conf type made fields sid st
    unfolding save_fields
    save_fields-gone j v fields st gone = ground (arith, gone)

    save_fields-returns :
        (fields : Dict ℕ) (st : State)
        → AllReady fields
        → (st' : State) × (save_fields js page conf type made fields sid st ≡ returns st')
    unfolding save_fields
    save_fields-returns [] st ready = (st, refl)
    save_fields-returns ((j, v) ∷ fields) st ready = elim (Option-cases (get_elem? made v)) [
      | inl gone ↦
          let (st', e) = save_fields-returns fields st ready.1 in
          (st', save_fields-gone j v fields st gone ∙ e)
      | inr (f, found) ↦
          let st1 = state_of (save_field js page conf type f sid st) in
          let (st', e) = save_fields-returns fields st1 ready.1 in
          (
            st',
            save_fields-step j v fields st st1 f found (call_save-state f sid st (ready.0 f found))
                ∙ e,
          )
    ]

  module _ (made : List Field) (k : String) (w : ℕ) (f : Field) (sid : String) (off : Bool)
      (is_input : f.widget ≡ abstract_value) where
    ucivalue-kept :
        (st st' : State)
        → get_option st'
            (ucipath conf f sid).config
            (ucipath conf f sid).section
            (ucipath conf f sid).option
          ≡ get_option st
              (ucipath conf f sid).config
              (ucipath conf f sid).section
              (ucipath conf f sid).option
        → ucivalue js conf st' f sid ≡ ucivalue js conf st f sid
    unfolding base_ucivalue
    ucivalue-kept st st' e =
        ucivalue-input js page conf type f sid st is_input st'
        ∙ (ground (arith, e) ∙ sym (ucivalue-input js page conf type f sid st is_input st))

    -- What the field reads after its `save`, where it read `ucivalue` of `st`.
    abbrev pub settled : State → Option Value
    settled st =
        if off
        then (if f.options.keep then ucivalue js conf st f sid else f.options.initial)
        else or_initial f (nothing_if_empty (page.val (field_id conf type f sid)))

    -- Fields of other names are for other options.
    abbrev pub Apart : Dict ℕ → Type 0
    Apart = All (λ e.
        (e.0 == k) ≡ false
        → (f' : Field) → get_elem? made e.1 ≡ some f'
        → (or_name f'.options.uci_option f'.name == (ucipath conf f sid).option) ≡ false)

    Apart-rest :
        (fields : Dict ℕ)
        → lookup k fields ≡ none
        → Apart fields
        → AllReady made sid fields
        → OtherFields
            (ucipath conf f sid).config
            (ucipath conf f sid).section
            (ucipath conf f sid).option
            js
            page
            conf
            made
            fields
    unfolding lookup
    Apart-rest [] e h ready = tt
    Apart-rest ((j, v) ∷ fields) e h ready = (
      λ f' at. (
        h.0 (ground (arith, e)) f' at,
        λ save own. absurd (ground (arith, own, (ready.0 f' at).0)),
      ),
      Apart-rest fields (ground (arith, e)) h.1 ready.1,
    )

    settled-kept :
        (st st' : State)
        → ucivalue js conf st' f sid ≡ ucivalue js conf st f sid
        → settled st' ≡ settled st
    settled-kept st st' e = ground (arith, e)

    saved-state :
        (st : State)
        → is_disabled f sid ≡ some off
        → state_of (save_field js page conf type f sid st)
          ≡ saved js page conf type f sid st is_input off
    saved-state st e = ap state_of (save_field-returns js page conf type f sid st is_input off e)

    kept-rest :
        (fields : Dict ℕ) (st st' : State)
        → Distinct2 st.creates
        → lookup k fields ≡ none
        → Apart fields
        → AllReady made sid fields
        → save_fields js page conf type made fields sid st ≡ returns st'
        → ucivalue js conf st' f sid ≡ ucivalue js conf st f sid
    kept-rest fields st st' d absent apart ready e =
        let p = ucipath conf f sid in
        ucivalue-kept st st'
          (subst (λ r. Kept p.config p.section p.option st (state_of r)) e
            (save_fields-Keeps p.config p.section p.option js page conf type made fields sid
              (Apart-rest fields absent apart ready) st d)).0

    -- The `save` of a section's fields, all of which were rendered for the section and none of which has a
    -- `save` of its own, returns and stores what each input field shows: afterwards the field reads the
    -- value of its input, or its initial one if this is empty; if it is disabled, what it read before or
    -- the initial one. The section can be written, and the other fields are for other options.
    pub ucivalue-save_fields :
        (fields : Dict ℕ) (st : State)
        → lookup k fields ≡ some w
        → get_elem? made w ≡ some f
        → is_disabled f sid ≡ some off
        → AllReady made sid fields
        → Distinct fields
        → Apart fields
        → Distinct2 st.creates
        → is_meta (ucipath conf f sid).option ≡ false
        → writable st (ucipath conf f sid).config (ucipath conf f sid).section ≡ true
        → (st' : State) × (save_fields js page conf type made fields sid st ≡ returns st')
          × (ucivalue js conf st' f sid ≡ settled st)
    unfolding lookup
    ucivalue-save_fields [] st there at is ready dist apart d plain can =
        absurd (ground (arith, there))
    ucivalue-save_fields ((j, v) ∷ fields) st there at is ready dist apart d plain can =
        let p = ucipath conf f sid in
        elim (Bool-cases (j == k)) [
          | inl same ↦
              let found : get_elem? made v ≡ some f =
                ap (get_elem? made) (ground (arith, there, same)) ∙ at in
              let absent : lookup k fields ≡ none =
                subst (λ x. lookup x fields ≡ none) ((eq_iff j k).0 same) dist.0 in
              let st1 = state_of (save_field js page conf type f sid st) in
              let d1 =
                save_field-Distinct2 p.config p.section p.option js page conf type f sid st d in
              let (st', e) = save_fields-returns made sid fields st1 ready.1 in
              (
                st',
                save_fields-step made sid j v fields st st1 f found
                      (call_save-state f sid st (ready.0 f found))
                    ∙ e,
                kept-rest fields st1 st' d1 absent apart.1 ready.1 e
                    ∙ (ap (λ x. ucivalue js conf x f sid) (saved-state st is)
                        ∙ ucivalue-saved js page conf type f sid st is_input off plain can),
              )
          | inr other ↦
              let there' : lookup k fields ≡ some w = ground (arith, there, other) in
              elim (Option-cases (get_elem? made v)) [
                | inl gone ↦
                    let (st', e, reads) =
                      ucivalue-save_fields fields st there' at is ready.1 dist.1 apart.1 d plain
                        can in
                    (st', save_fields-gone made sid j v fields st gone ∙ e, reads)
                | inr (f', found) ↦
                    let st1 = state_of (save_field js page conf type f' sid st) in
                    let kept =
                      save_field-Keeps p.config p.section p.option js page conf type f' sid
                        (apart.0 other f' found) st d in
                    let (st', e, reads) =
                      ucivalue-save_fields fields st1 there' at is ready.1 dist.1 apart.1 kept.1
                        plain (writable-save_field f' sid st p.config p.section ∙ can) in
                    (
                      st',
                      save_fields-step made sid j v fields st st1 f' found
                            (call_save-state f' sid st (ready.0 f' found))
                          ∙ e,
                      reads ∙ settled-kept st st1 (ucivalue-kept st st1 kept.0),
                    )
              ]
        ]
