-- ===== src/Uci/Access/ReadWrite.antt =====
-- What `get` returns after `set` and `unset`.
use text.Mathlib.Text.{◌==◌}
use xluci.Prelude.{
  String, Bool, true, false, not, ◌&&◌, ◌||◌, Option, none, some, [], ◌≡◌, refl, arith, eq_iff,
  if◌then◌else◌, inl, inr, Option-cases, Bool-cases,
}
use xluci.Prelude.Dict.{
  Dict, lookup, put, lookup2, put2, lookup-nil, lookup-put, lookup-remove, lookup2-put2,
}
use xluci.Uci.Store.{Value, Section, Deletion, State, is_meta, field, assign}
use xluci.Uci.Access.{
  hides, changed, loaded, base_option, get_option, is_whole, is_some, set_base, unset_base, given,
  set_option,
}
use xluci.Uci.Access.Deletions.{same_entry, hides-undelete, hides-push_deletion}

pub plain_ne : (opt key : String) → is_meta opt ≡ false → is_meta key ≡ true → (opt == key) ≡ false
plain_ne opt key p m = ground (arith, eq_iff opt key)

-- A write to an option of a section object changes that option and no other key.
pub field-assign :
    (s : Section) (opt o : String) (val : Option Value)
    → is_meta opt ≡ false
    → field (assign s opt val) o ≡ (if opt == o then val else field s o)
unfolding field assign is_meta
field-assign s opt o none plain = ground (
  arith,
  eq_iff opt o,
  lookup-remove opt o s.options,
  plain_ne opt ".type" plain refl,
  plain_ne opt ".name" plain refl,
  plain_ne opt ".create" plain refl,
  plain_ne opt ".anonymous" plain refl,
  plain_ne opt ".index" plain refl,
)
field-assign s opt o (some v) plain = ground (
  arith,
  eq_iff opt o,
  lookup-put opt o v s.options,
  plain_ne opt ".type" plain refl,
  plain_ne opt ".name" plain refl,
  plain_ne opt ".create" plain refl,
  plain_ne opt ".anonymous" plain refl,
  plain_ne opt ".index" plain refl,
)

-- The sections in which `set` changes anything: those created here, and those loaded and not deleted.
unfoldable pub writable : State → String → String → Bool
unfolding is_some is_whole
writable st conf sid =
    is_some (lookup2 conf sid st.creates)
    || (is_some (lookup2 conf sid st.values) && not (is_whole (lookup2 conf sid st.deletes)))

-- What `set` leaves for `get`: an empty text deletes the option of a loaded section.
unfoldable pub stored : State → String → String → Option Value → Option Value
unfolding given
stored st conf sid val = elim (lookup2 conf sid st.creates) [ some s ↦ val | none ↦ given val ]

changed_options-lookup :
    (o : Option (Dict Value)) (opt opt' : String) (v : Value)
    → lookup opt' (put opt v (elim o [ none ↦ [] | some d ↦ d ]))
      ≡ (if opt == opt' then some v else elim o [ none ↦ none | some d ↦ lookup opt' d ])
changed_options-lookup none opt opt' v =
    ground (arith, lookup-put opt opt' v [], lookup-nil {V = Value} opt')
changed_options-lookup (some d) opt opt' v = lookup-put opt opt' v d

whole_hides : (e : Option Deletion) (o : String) → is_whole e ≡ true → hides e o ≡ true
unfolding is_whole hides
whole_hides e o h = ground arith

changed_entry :
    (ch : Dict (Dict (Dict Value))) (c s o c' s' o' : String) (v : Value)
    → elim (lookup2 c' s'
        (put2 c s (put o v (elim (lookup2 c s ch) [ none ↦ [] | some d ↦ d ])) ch)) [
          | none ↦ none
          | some d ↦ lookup o' d
        ]
      ≡ (if same_entry c s o c' s' o'
          then some v
          else elim (lookup2 c' s' ch) [ none ↦ none | some d ↦ lookup o' d ])
changed_entry ch c s o c' s' o' v = ground (
  arith,
  eq_iff c c',
  eq_iff s s',
  changed_options-lookup (lookup2 c s ch) o o' v,
  lookup2-put2 c s c' s' (put o v (elim (lookup2 c s ch) [ none ↦ [] | some d ↦ d ])) ch,
)

module _ (st : State) (conf sid opt : String) (conf' sid' opt' : String) where
  base_option-set_base :
      (v : Value)
      → base_option (set_base st conf sid opt v) conf' sid' opt' ≡ (
          if same_entry conf sid opt conf' sid' opt'
            && (is_some (lookup2 conf sid st.values)
                && not (is_whole (lookup2 conf sid st.deletes)))
          then some v
          else base_option st conf' sid' opt')
  unfolding base_option changed loaded set_base
  base_option-set_base v = ground (
    arith,
    eq_iff conf conf',
    eq_iff sid sid',
    hides-undelete st.deletes conf sid opt conf' sid' opt',
    changed_entry st.changes conf sid opt conf' sid' opt' v,
  )

  base_option-unset_base : base_option (unset_base st conf sid opt) conf' sid' opt' ≡ (
      if same_entry conf sid opt conf' sid' opt'
        && (is_some (lookup2 conf sid st.values) && not (is_whole (lookup2 conf sid st.deletes)))
      then none
      else base_option st conf' sid' opt')
  unfolding base_option changed loaded unset_base
  base_option-unset_base = elim (Bool-cases (is_some (lookup2 conf sid st.values))) [
    | inl has ↦
        rw (has, unset_base)
          (ground (
            arith,
            has,
            eq_iff conf conf',
            eq_iff sid sid',
            eq_iff opt opt',
            hides-push_deletion st.deletes conf sid opt conf' sid' opt',
            whole_hides (lookup2 conf sid st.deletes) opt,
          ))
    | inr no_section ↦ rw (no_section, unset_base) (ground (arith, no_section))
  ]

pub set_option-created :
    (st : State) (conf sid opt : String) (val : Option Value) (s : Section)
    → is_meta opt ≡ false
    → lookup2 conf sid st.creates ≡ some s
    → set_option st conf sid opt val
      ≡ record st { creates = put2 conf sid (assign s opt val) st.creates }
unfolding set_option
set_option-created st conf sid opt val s plain e = rw plain (rw e)

set_option-base :
    (st : State) (conf sid opt : String) (val : Option Value)
    → is_meta opt ≡ false
    → lookup2 conf sid st.creates ≡ none
    → set_option st conf sid opt val
      ≡ elim (given val) [ some v ↦ set_base st conf sid opt v | none ↦ unset_base st conf sid opt ]
unfolding set_option
set_option-base st conf sid opt val plain e = rw plain (rw e)

-- The writes to loaded sections leave the created ones alone.
pub creates-set_base :
    (st : State) (conf sid opt : String) (v : Value)
    → (set_base st conf sid opt v).creates ≡ st.creates
unfolding set_base
creates-set_base st conf sid opt v = ground arith

pub creates-unset_base :
    (st : State) (conf sid opt : String) → (unset_base st conf sid opt).creates ≡ st.creates
unfolding unset_base
creates-unset_base st conf sid opt = ground arith

module _ (st : State) (conf sid opt conf' sid' opt' : String) where
  get_option-set_created :
      (val : Option Value) (s : Section)
      → is_meta opt ≡ false
      → lookup2 conf sid st.creates ≡ some s
      → get_option
          (record st { creates = put2 conf sid (assign s opt val) st.creates })
          conf'
          sid'
          opt'
        ≡ (if same_entry conf sid opt conf' sid' opt' then val else get_option st conf' sid' opt')
  unfolding get_option base_option changed loaded
  get_option-set_created val s plain e = ground (
    arith,
    e,
    eq_iff conf conf',
    eq_iff sid sid',
    lookup2-put2 conf sid conf' sid' (assign s opt val) st.creates,
    field-assign s opt opt' val plain,
  )

  get_option-base_write :
      (val : Option Value)
      → lookup2 conf sid st.creates ≡ none
      → get_option
          (elim val [ some v ↦ set_base st conf sid opt v | none ↦ unset_base st conf sid opt ])
          conf'
          sid'
          opt'
        ≡ (if same_entry conf sid opt conf' sid' opt'
              && (is_some (lookup2 conf sid st.values)
                  && not (is_whole (lookup2 conf sid st.deletes)))
            then val
            else get_option st conf' sid' opt')
  unfolding get_option
  get_option-base_write none e = ground (
    arith,
    e,
    eq_iff conf conf',
    eq_iff sid sid',
    creates-unset_base st conf sid opt,
    base_option-unset_base st conf sid opt conf' sid' opt',
  )
  get_option-base_write (some v) e = ground (
    arith,
    e,
    eq_iff conf conf',
    eq_iff sid sid',
    creates-set_base st conf sid opt v,
    base_option-set_base st conf sid opt conf' sid' opt' v,
  )

-- After `set(conf, sid, opt, val)` of an option that is no attribute, `get` returns, at that package,
-- section and option, the value (nothing for an empty text in a loaded section), if the section was
-- created here or is loaded and not deleted; everywhere else, and in any other section, `get` returns
-- what it returned before.
pub get_option-set_option :
    (st : State) (conf sid opt : String) (val : Option Value) (conf' sid' opt' : String)
    → is_meta opt ≡ false
    → get_option (set_option st conf sid opt val) conf' sid' opt' ≡ (
        if same_entry conf sid opt conf' sid' opt' && writable st conf sid
        then stored st conf sid val
        else get_option st conf' sid' opt')
unfolding writable stored is_some
get_option-set_option st conf sid opt val conf' sid' opt' plain =
    elim (Option-cases (lookup2 conf sid st.creates)) [
      | inl e ↦
          rw (set_option-base st conf sid opt val plain e)
            (ground (arith, e, get_option-base_write st conf sid opt conf' sid' opt' (given val) e))
      | inr (s, e) ↦
          rw (set_option-created st conf sid opt val s plain e) (
            ground (arith, e, get_option-set_created st conf sid opt conf' sid' opt' val s plain e))
    ]
