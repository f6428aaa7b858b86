-- ===== src/Uci/Edits/Invariant.antt =====
-- What every edit keeps of the store.
use xluci.Prelude.{
  ℕ, String, true, Option, none, some, [], ◌≡◌, ◌≢◌, refl, sym, ◌∙◌, ap, arith, eq_iff, inl, inr,
  Option-cases, Bool-cases,
}
use xluci.Prelude.Dict.{Dict, lookup2, put2, lookup2-put2, lookup2-remove2}
use xluci.Uci.Store.{Value, Section, Deletion, whole, opts, filter_array, State, assign, is_meta}
use xluci.Uci.Access.{is_some, is_whole, set_option, remove, set_base, unset_base, undelete, given}
use xluci.Uci.Edits.Keys.{
  Each2, Each2-put2, Each2-remove2, at-Each2, Distinct2-put2, Distinct2-remove2,
}
use xluci.Uci.Save.Sets.{Distinct2}

-- The loaded sections are `values`; the changes are of loaded sections; the keys of the changes and
-- the deletions are distinct; no created section has the name `s`, or was asked for by it, where `s` is
-- a loaded section of the package `c`.
pub record IsEdited (values : Dict (Dict Section)) (c s : String) (st : State) : Type 0 where
  pub loaded_kept : st.values ≡ values
  pub changes_loaded :
      Each2 (λ c s (o : Dict Value). is_some (lookup2 c s values) ≡ true) st.changes
  pub changes_distinct : Distinct2 st.changes
  pub deletes_distinct : Distinct2 st.deletes
  pub not_created : lookup2 c s st.creates ≡ none
  pub not_asked : Each2 (λ c k (x : Section). x.create ≢ some s) st.creates

undelete-some :
    (d : Dict (Dict Deletion)) (conf sid opt : String) (o : Deletion)
    → lookup2 conf sid d ≡ some o
    → (x : Deletion) × (undelete d conf sid opt ≡ put2 conf sid x d)
unfolding undelete
undelete-some d conf sid opt whole e = (opts [], ground (arith, e))
undelete-some d conf sid opt (opts l) e = (opts (filter_array l opt), ground (arith, e))

Distinct2-undelete :
    (d : Dict (Dict Deletion)) (conf sid opt : String)
    → Distinct2 d
    → Distinct2 (undelete d conf sid opt)
unfolding undelete
Distinct2-undelete d conf sid opt h = elim (Option-cases (lookup2 conf sid d)) [
  | inl e ↦ rw (e, undelete) h
  | inr (o, e) ↦
      let (x, same) = undelete-some d conf sid opt o e in rw same (Distinct2-put2 conf sid x d h)
]

module _ (values : Dict (Dict Section)) (c s : String) where
  abbrev pub IsLoaded : String → String → Dict Value → Type 0
  IsLoaded c s o = is_some (lookup2 c s values) ≡ true

  abbrev pub IsOther : String → String → Section → Type 0
  IsOther c k x = x.create ≢ some s

  pub with_creates :
      (st : State) (idx : ℕ) (n : Dict (Dict Section))
      → IsEdited values c s st
      → lookup2 c s n ≡ none
      → Each2 IsOther n
      → IsEdited values c s (record st { newidx = idx; creates = n })
  with_creates st idx n h e others = record {
    loaded_kept = h.loaded_kept;
    changes_loaded = h.changes_loaded;
    changes_distinct = h.changes_distinct;
    deletes_distinct = h.deletes_distinct;
    not_created = e;
    not_asked = others;
  }

  with_edits :
      (st : State) (changes : Dict (Dict (Dict Value))) (deletes : Dict (Dict Deletion))
      → IsEdited values c s st
      → Each2 IsLoaded changes
      → Distinct2 changes
      → Distinct2 deletes
      → IsEdited values c s (record st { changes = changes; deletes = deletes })
  with_edits st changes deletes h l dc dd = record {
    loaded_kept = h.loaded_kept;
    changes_loaded = l;
    changes_distinct = dc;
    deletes_distinct = dd;
    not_created = h.not_created;
    not_asked = h.not_asked;
  }

  set_base-IsEdited :
      (st : State) (conf sid opt : String) (v : Value)
      → IsEdited values c s st
      → IsEdited values c s (set_base st conf sid opt v)
  unfolding set_base
  set_base-IsEdited st conf sid opt v h =
      elim (Bool-cases (is_whole (lookup2 conf sid st.deletes))) [
        | inl e ↦ rw (e, set_base) h
        | inr ne ↦ elim (Bool-cases (is_some (lookup2 conf sid st.values))) [
          | inl there ↦
              rw (ne, set_base)
                (rw there (
                  with_edits st _ _ h
                    (Each2-put2 IsLoaded conf sid _ st.changes
                      (ap (λ v. is_some (lookup2 conf sid v)) (sym h.loaded_kept) ∙ there)
                      h.changes_loaded)
                    (Distinct2-put2 conf sid _ st.changes h.changes_distinct)
                    (Distinct2-undelete st.deletes conf sid opt h.deletes_distinct)))
          | inr gone ↦ rw (ne, set_base) (rw gone h)
        ]
      ]

  unset_base-IsEdited :
      (st : State) (conf sid opt : String)
      → IsEdited values c s st
      → IsEdited values c s (unset_base st conf sid opt)
  unfolding unset_base
  unset_base-IsEdited st conf sid opt h = elim (Bool-cases (is_some (lookup2 conf sid st.values))) [
    | inl there ↦
        rw (there, unset_base)
          (with_edits st st.changes _ h h.changes_loaded h.changes_distinct
            (Distinct2-put2 conf sid _ st.deletes h.deletes_distinct))
    | inr gone ↦ rw (gone, unset_base) h
  ]

  create-assign :
      (x : Section) (opt : String) (val : Option Value) → (assign x opt val).create ≡ x.create
  unfolding assign
  create-assign x opt none = refl
  create-assign x opt (some v) = refl

  -- A write to a created section does not make one, and keeps what it was asked for.
  set_created-IsEdited :
      (st : State) (conf sid opt : String) (val : Option Value) (x : Section)
      → lookup2 conf sid st.creates ≡ some x
      → IsEdited values c s st
      → IsEdited values c s (record st { creates = put2 conf sid (assign x opt val) st.creates })
  set_created-IsEdited st conf sid opt val x e h =
      with_creates st st.newidx _ h
        (ground (
          arith,
          e,
          h.not_created,
          eq_iff conf c,
          eq_iff sid s,
          lookup2-put2 conf sid c s (assign x opt val) st.creates,
        ))
        (Each2-put2 IsOther conf sid (assign x opt val) st.creates
          (λ eq.
            at-Each2 IsOther conf sid x st.creates e h.not_asked
              (sym (create-assign x opt val) ∙ eq))
          h.not_asked)

  pub set_option-IsEdited :
      (st : State) (conf sid opt : String) (val : Option Value)
      → IsEdited values c s st
      → IsEdited values c s (set_option st conf sid opt val)
  unfolding set_option
  set_option-IsEdited st conf sid opt val h = elim (Bool-cases (is_meta opt)) [
    | inl e ↦ rw (e, set_option) h
    | inr plain ↦ elim (Option-cases (lookup2 conf sid st.creates)) [
      | inl e ↦ elim (Option-cases (given val)) [
        | inl g ↦
            rw (plain, set_option)
              (rw (e, set_option) (rw (g, set_option) (unset_base-IsEdited st conf sid opt h)))
        | inr (v, g) ↦
            rw (plain, set_option)
              (rw (e, set_option) (rw (g, set_option) (set_base-IsEdited st conf sid opt v h)))
      ]
      | inr (x, e) ↦
          rw (plain, set_option)
            (rw (e, set_option) (set_created-IsEdited st conf sid opt val x e h))
    ]
  ]

  pub remove-IsEdited :
      (st : State) (conf sid : String)
      → IsEdited values c s st
      → IsEdited values c s (remove st conf sid)
  unfolding remove
  remove-IsEdited st conf sid h = elim (Option-cases (lookup2 conf sid st.creates)) [
    | inl e ↦
        rw (e, remove)
          (with_edits st _ _ h (Each2-remove2 IsLoaded conf sid st.changes h.changes_loaded)
            (Distinct2-remove2 conf sid st.changes h.changes_distinct)
            (Distinct2-put2 conf sid whole st.deletes h.deletes_distinct))
    | inr (x, e) ↦
        rw (e, remove)
          (with_creates st st.newidx _ h
            (ground (arith, h.not_created, lookup2-remove2 conf sid c s st.creates))
            (Each2-remove2 IsOther conf sid st.creates h.not_asked))
  ]
