-- ===== src/Cbi/Tree/Frame.antt =====
-- What the `save` of sections with their subsections leaves alone.
use mathlib.Core.Path.{subst}
use Prim.Native.String.{◌++◌ as append}
use text.Mathlib.Text.{◌==◌}
use xluci.Prelude.{
  ℕ, String, true, false, Option, none, some, List, [], ◌∷◌, ◌≡◌, ◌⊎◌, sym, All-get_elem, refl, ◌∙◌,
  arith, get_elem?, All, inl, inr, Option-cases, Bool-cases,
}
use xluci.Prelude.Dict.{Dict, lookup2}
use xluci.Uci.Store.{Value, State, is_meta, assign}
use xluci.Uci.Access.{get_option, set_option, given}
use xluci.Uci.Access.ReadWrite.{get_option-set_option, creates-set_base, creates-unset_base}
use xluci.Uci.Sections.{sections}
use xluci.Uci.Sections.Unchanged.{sections-get_option, sections-Distinct2}
use xluci.Uci.Save.Sets.{Distinct2}
use xluci.Uci.Edits.Keys.{Distinct2-put2}
use xluci.Cbi.Js.{Js}
use xluci.Cbi.Run.{Run, returns, throws, state_of, then_run}
use xluci.Cbi.Field.{Field, Page, ucipath, or_name}
use xluci.Cbi.Value.{
  ucivalue, formvalue, values_differ, saved_value, is_disabled, save_field, call_save,
  value_or_empty, wlan_freq_save,
}
use xluci.Cbi.Tree.{
  typed_section, named_section, dummy_section, Part, Node, node, Nodes, done, next, matching,
  sort_sections, named, names_of, uci_sections, save_fields, each_sid, save_part, save_node,
  save_nodes,
}

set_option-Distinct2 :
    (st : State) (c s o : String) (val : Option Value)
    → Distinct2 st.creates
    → Distinct2 (set_option st c s o val).creates
unfolding set_option
set_option-Distinct2 st c s o val h = elim (Bool-cases (is_meta o)) [
  | inl meta ↦ rw (meta, set_option) h
  | inr plain ↦ elim (Option-cases (lookup2 c s st.creates)) [
    | inl e ↦ elim (Option-cases (given val)) [
      | inl g ↦ rw (plain, e, g, set_option, creates-unset_base st c s o) h
      | inr (v, g) ↦ rw (plain, e, g, set_option, creates-set_base st c s o v) h
    ]
    | inr (x, e) ↦ rw (plain, e, set_option) (Distinct2-put2 c s (assign x o val) st.creates h)
  ]
]

-- A write to an option of another name is not seen.
set_option-other :
    (st : State) (c s o : String) (val : Option Value) (c' s' o' : String)
    → (o == o') ≡ false
    → get_option (set_option st c s o val) c' s' o' ≡ get_option st c' s' o'
unfolding set_option
set_option-other st c s o val c' s' o' other = elim (Bool-cases (is_meta o)) [
  | inl meta ↦ ground (arith, meta)
  | inr plain ↦ get_option-set_option st c s o val c' s' o' plain ∙ ground (arith, other)
]

module _ (c s o : String) where
  -- The option reads as before, and the keys of the created sections stay distinct.
  abbrev pub Kept : State → State → Type 0
  Kept st st' = (get_option st' c s o ≡ get_option st c s o) × Distinct2 st'.creates

  abbrev pub Keeps : (State → Run) → Type 0
  Keeps g = (st : State) → Distinct2 st.creates → Kept st (state_of (g st))

  Kept-then :
      (st : State) (r : Run) (h : State → Run)
      → Kept st (state_of r)
      → Keeps h
      → Kept st (state_of (then_run r h))
  Kept-then st (returns st') h first l =
      let second = l st' first.1 in (second.0 ∙ first.0, second.1)
  Kept-then st (throws st') h first l = first

  pub Keeps-then : (g h : State → Run) → Keeps g → Keeps h → Keeps (λ st. then_run (g st) h)
  Keeps-then g h k l st d = Kept-then st (g st) h (k st d) l

  -- The field is not for the option, and its own `save` keeps the option, if it has one.
  abbrev pub Unnamed : Field → Type 0
  Unnamed f =
      ((or_name f.options.uci_option f.name == o) ≡ false)
      × ((save : String → State → Run) → f.own_save ≡ some save → (sid : String) → Keeps (save sid))

  unfoldable mutual
    pub UnnamedNode : Node → Type 0
    UnnamedNode (node part subsections) = All Unnamed part.form.made × UnnamedNodes subsections

    pub UnnamedNodes : Nodes → Type 0
    UnnamedNodes done = Unit
    UnnamedNodes (next n ns) = UnnamedNode n × UnnamedNodes ns

  module _ (js : Js) (page : Page) (conf : String) where
    -- `WlanFreqValue` writes its three options in the package wireless.
    pub wlan_freq_save-Keeps :
        (id : String → String) (sid : String)
        → ("hwmode" == o) ≡ false
        → ("channel" == o) ≡ false
        → ("htmode" == o) ≡ false
        → Keeps (wlan_freq_save page id sid)
    unfolding wlan_freq_save
    wlan_freq_save-Keeps id sid mode channel width st d =
        let value : String → Option Value =
          λ kind. some (value_or_empty (page.val (append (id sid) kind))) in
        let st1 = set_option st "wireless" sid "hwmode" (value "band") in
        let st2 = set_option st1 "wireless" sid "channel" (value "channel") in
        let d1 = set_option-Distinct2 st "wireless" sid "hwmode" (value "band") d in
        let d2 = set_option-Distinct2 st1 "wireless" sid "channel" (value "channel") d1 in
        (
          set_option-other st2 "wireless" sid "htmode" (value "width") c s o width
              ∙ (set_option-other st1 "wireless" sid "channel" (value "channel") c s o channel
                  ∙ set_option-other st "wireless" sid "hwmode" (value "band") c s o mode),
          set_option-Distinct2 st2 "wireless" sid "htmode" (value "width") d2,
        )

    -- `save` of a field writes its option or nothing.
    pub save_field-writes :
        (type : String) (f : Field) (sid : String) (st : State)
        → (state_of (save_field js page conf type f sid st) ≡ st)
          ⊎ ((val : Option Value) × (state_of (save_field js page conf type f sid st)
                ≡ set_option st
                    (ucipath conf f sid).config
                    (ucipath conf f sid).section
                    (ucipath conf f sid).option
                    val))
    unfolding save_field
    save_field-writes type f sid st =
        let val = formvalue js page conf type st f sid in
        elim (Option-cases (is_disabled f sid)) [
          | inl missing ↦ inl (ground (arith, missing))
          | inr (true, off) ↦ elim (Bool-cases f.options.keep) [
            | inl kept ↦ inl (ground (arith, off, kept))
            | inr k ↦ inr (none, ground (arith, off, k))
          ]
          | inr (false, on) ↦ elim (Bool-cases (values_differ (ucivalue js conf st f sid) val)) [
            | inl changed ↦ inr (saved_value js f val, ground (arith, on, changed))
            | inr same ↦ inl (ground (arith, on, same))
          ]
        ]

    pub save_field-Distinct2 :
        (type : String) (f : Field) (sid : String) (st : State)
        → Distinct2 st.creates
        → Distinct2 (state_of (save_field js page conf type f sid st)).creates
    save_field-Distinct2 type f sid st d = elim (save_field-writes type f sid st) [
      | inl e ↦ subst (λ x. Distinct2 x.creates) (sym e) d
      | inr (val, e) ↦
          let p = ucipath conf f sid in
          subst (λ x. Distinct2 x.creates) (sym e)
            (set_option-Distinct2 st p.config p.section p.option val d)
    ]

    pub save_field-Keeps :
        (type : String) (f : Field) (sid : String)
        → (or_name f.options.uci_option f.name == o) ≡ false
        → Keeps (save_field js page conf type f sid)
    unfolding ucipath
    save_field-Keeps type f sid other st d = elim (save_field-writes type f sid st) [
      | inl e ↦ subst (Kept st) (sym e) (refl, d)
      | inr (val, e) ↦
          let p = ucipath conf f sid in
          subst (Kept st) (sym e) (
            set_option-other st p.config p.section p.option val c s o other,
            set_option-Distinct2 st p.config p.section p.option val d,
          )
    ]

    pub call_save-Keeps :
        (type : String) (f : Field) (sid : String)
        → Unnamed f
        → Keeps (call_save js page conf type f sid)
    unfolding call_save
    call_save-Keeps type f sid other st d = elim (Option-cases f.own_save) [
      | inl e ↦ rw (e, call_save) (save_field-Keeps type f sid other.0 st d)
      | inr (save, e) ↦ rw (e, call_save) (other.1 save e sid st d)
    ]

    -- The fields at the places that the entries lead to are not for the option.
    abbrev pub OtherFields : List Field → Dict ℕ → Type 0
    OtherFields made = All (λ e. (f : Field) → get_elem? made e.1 ≡ some f → Unnamed f)

    OtherFields-All :
        (made : List Field) (fields : Dict ℕ) → All Unnamed made → OtherFields made fields
    OtherFields-All made [] other = tt
    OtherFields-All made ((name, w) ∷ fields) other =
        (λ f e. All-get_elem Unnamed made w f other e, OtherFields-All made fields other)

    pub save_fields-Keeps :
        (type : String) (made : List Field) (fields : Dict ℕ) (sid : String)
        → OtherFields made fields
        → Keeps (save_fields js page conf type made fields sid)
    unfolding save_fields
    save_fields-Keeps type made [] sid other st d = (refl, d)
    save_fields-Keeps type made ((name, w) ∷ fields) sid other st d =
        elim (Option-cases (get_elem? made w)) [
          | inl e ↦ rw (e, save_fields) (save_fields-Keeps type made fields sid other.1 st d)
          | inr (f, e) ↦
              rw (e, save_fields)
                (Keeps-then (call_save js page conf type f sid)
                  (save_fields js page conf type made fields sid)
                  (call_save-Keeps type f sid (other.0 f e))
                  (save_fields-Keeps type made fields sid other.1) st d)
        ]

    save_part-Keeps :
        (part : Part) (sid : String)
        → All Unnamed part.form.made
        → Keeps (save_part js page conf part sid)
    unfolding save_part
    save_part-Keeps part sid other st d = elim (Bool-cases part.form.readonly) [
      | inl r ↦ rw (r, save_part) (refl, d)
      | inr w ↦
          rw (w, save_part)
            (save_fields-Keeps part.form.uci_type part.form.made part.form.fields sid
              (OtherFields-All part.form.made part.form.fields other) st d)
    ]

    each_sid-Keeps :
        (g : String → State → Run) (sids : List String)
        → ((sid : String) → Keeps (g sid))
        → Keeps (each_sid g sids)
    unfolding each_sid
    each_sid-Keeps g [] k st d = (refl, d)
    each_sid-Keeps g (sid ∷ sids) k st d =
        Keeps-then (g sid) (each_sid g sids) (k sid) (each_sid-Keeps g sids k) st d

    uci_sections-Keeps :
        (part : Part) (parent : Option String)
        → is_meta o ≡ false
        → Keeps (λ st. returns (uci_sections conf part parent st).1)
    unfolding uci_sections
    uci_sections-Keeps part parent plain st d =
        elim part.kind
          as (λ kind.
            Kept st
              (elim kind as (λ k. List String × State) [
                | typed_section ↦ (
                  names_of
                      (sort_sections part.sort (matching part parent (sections st conf none).0)),
                  (sections st conf none).1,
                )
                | named_section ↦ (
                  names_of (named part.form.uci_type (sections st conf none).0),
                  (sections st conf none).1,
                )
                | dummy_section ↦ (part.form.uci_type ∷ [], st)
              ]).1) [
                | typed_section ↦ (
                  sections-get_option conf o st none c s d plain,
                  sections-Distinct2 st conf none d,
                )
                | named_section ↦ (
                  sections-get_option conf o st none c s d plain,
                  sections-Distinct2 st conf none d,
                )
                | dummy_section ↦ (refl, d)
              ]

    mutual
      unfolding save_node UnnamedNode

      save_node-Keeps :
          (n : Node) (parent : Option String)
          → is_meta o ≡ false
          → UnnamedNode n
          → Keeps (save_node js page conf n parent)
      save_node-Keeps (node part subsections) parent plain other st d =
          Keeps-then (λ st. returns (uci_sections conf part parent st).1)
            (each_sid
              (λ sid st.
                then_run (save_part js page conf part sid st)
                  (save_nodes js page conf subsections (some sid)))
              (uci_sections conf part parent st).0)
            (uci_sections-Keeps part parent plain)
            (each_sid-Keeps
              (λ sid st.
                then_run (save_part js page conf part sid st)
                  (save_nodes js page conf subsections (some sid)))
              (uci_sections conf part parent st).0
              (λ sid.
                Keeps-then (save_part js page conf part sid)
                  (save_nodes js page conf subsections (some sid))
                  (save_part-Keeps part sid other.0)
                  (save_nodes-Keeps subsections (some sid) plain other.1)))
            st d

      pub save_nodes-Keeps :
          (ns : Nodes) (parent : Option String)
          → is_meta o ≡ false
          → UnnamedNodes ns
          → Keeps (save_nodes js page conf ns parent)
      save_nodes-Keeps done parent plain other st d = (refl, d)
      save_nodes-Keeps (next n ns) parent plain other st d =
          Keeps-then (save_node js page conf n parent) (save_nodes js page conf ns parent)
            (save_node-Keeps n parent plain other.0) (save_nodes-Keeps ns parent plain other.1) st d
