-- ===== src/Uci/Edits/Saved.antt =====
-- A page's edits and `save`: the router ends with what `get` showed.
use text.Mathlib.Text.{◌==◌}
use mathlib.Core.Path.{subst}
use xluci.Prelude.{
  ℕ, ◌+◌, String, Bool, true, false, Option, none, some, List, [], ◌∷◌, ◌≡◌, ◌≢◌, refl, sym, ◌∙◌,
  arith, eq_iff, if◌then◌else◌, All, inl, inr, Option-cases,
}
use xluci.Prelude.Dict.{Dict, lookup, lookup2, put2, lookup2-put2}
use xluci.Uci.Store.{Value, Section, State, is_meta}
use xluci.Uci.Access.{is_some, get_option, loaded}
use xluci.Uci.Create.{taken, add, add_as, choose_sid, truthy, new_section}
use xluci.Uci.Create.Fresh.{create_sid-free}
use xluci.Uci.Save.{save_calls}
use xluci.Uci.Save.Router.{Router, kept, keep}
use xluci.Uci.Save.Sets.{run_all, AllHas, AllHas2}
use xluci.Uci.Save.Refined.{save_calls-get_option}
use xluci.Uci.Edits.{Edit, to_set, to_remove, to_add, edit, edits}
use xluci.Uci.Edits.Keys.{Each2-put2}
use xluci.Uci.Edits.Invariant.{
  IsEdited, IsOther, with_creates, set_option-IsEdited, remove-IsEdited,
}

-- No section is added under the name.
abbrev pub NotNamed : String → Edit → Type 0
NotNamed s (to_set conf sid opt val) = Unit
NotNamed s (to_remove conf sid) = Unit
NotNamed s (to_add fuel draw conf type name) = name ≢ some s

module _ (values : Dict (Dict Section)) (c s : String)
    (there : is_some (lookup2 c s values) ≡ true) where
  truthy-some : (name : Option String) (n : String) → truthy name ≡ some n → name ≡ some n
  unfolding truthy
  truthy-some none n e = absurd (ground (arith, e))
  truthy-some (some m) n e = ground (arith, e)

  abbrev same : String → String → Bool
  same conf sid = if conf == c then sid == s else false

  free_other :
      (st : State) (conf sid : String)
      → IsEdited values c s st
      → taken st conf sid ≡ false
      → same conf sid ≡ false
  unfolding taken
  free_other st conf sid h free =
      ground (arith, free, there, h.loaded_kept, eq_iff conf c, eq_iff sid s)

  chosen_other :
      (fuel : ℕ) (draw : ℕ → String) (st : State) (conf : String) (name : Option String)
      (sid : String)
      → IsEdited values c s st
      → name ≢ some s
      → choose_sid fuel draw st conf name ≡ some sid
      → same conf sid ≡ false
  unfolding choose_sid
  chosen_other fuel draw st conf name sid h ne e = elim (Option-cases (truthy name)) [
    | inl unnamed ↦
        free_other st conf sid h
          (create_sid-free fuel draw 0 st conf sid (ground (arith, unnamed, e)))
    | inr (n, named) ↦
        let n_is_sid : n ≡ sid = ground (arith, named, e) in
        ground (arith, eq_iff sid s, ne, truthy-some name n named, n_is_sid)
  ]

  add_as-IsEdited :
      (st : State) (conf type : String) (name : Option String) (sid : String)
      → IsEdited values c s st
      → name ≢ some s
      → same conf sid ≡ false
      → IsEdited values c s (add_as st conf type name sid)
  unfolding add_as new_section
  add_as-IsEdited st conf type name sid h ne other =
      let x = new_section st type name sid in
      with_creates values c s st (st.newidx + 1) (put2 conf sid x st.creates) h
        (ground (arith, other, h.not_created, lookup2-put2 conf sid c s x st.creates))
        (Each2-put2 (IsOther values c s) conf sid x st.creates ne h.not_asked)

  edit-added :
      (st : State) (fuel : ℕ) (draw : ℕ → String) (conf type : String) (name : Option String)
      (sid : String)
      → choose_sid fuel draw st conf name ≡ some sid
      → edit st (to_add fuel draw conf type name) ≡ add_as st conf type name sid
  unfolding edit add
  edit-added st fuel draw conf type name sid e = ground (arith, e)

  edit-none :
      (st : State) (fuel : ℕ) (draw : ℕ → String) (conf type : String) (name : Option String)
      → choose_sid fuel draw st conf name ≡ none
      → edit st (to_add fuel draw conf type name) ≡ st
  unfolding edit add
  edit-none st fuel draw conf type name e = ground (arith, e)

  edit-IsEdited :
      (e : Edit) (st : State)
      → IsEdited values c s st
      → NotNamed s e
      → IsEdited values c s (edit st e)
  unfolding edit
  edit-IsEdited (to_set conf sid opt val) st h n =
      set_option-IsEdited values c s st conf sid opt val h
  edit-IsEdited (to_remove conf sid) st h n = remove-IsEdited values c s st conf sid h
  edit-IsEdited (to_add fuel draw conf type name) st h n =
      elim (Option-cases (choose_sid fuel draw st conf name)) [
        | inl e ↦
            subst (λ x. IsEdited values c s x) (sym (edit-none st fuel draw conf type name e)) h
        | inr (sid, e) ↦
            subst (λ x. IsEdited values c s x) (sym (edit-added st fuel draw conf type name sid e))
              (add_as-IsEdited st conf type name sid h n
                (chosen_other fuel draw st conf name sid h n e))
      ]

-- No sequence of `set`, `unset`, `remove` and `add` changes what was loaded, creates a section of a
-- loaded name, which no `add` asks for, or makes changes of sections that were not loaded; the keys of
-- the changes and the deletions stay distinct.
pub edits-IsEdited :
    (es : List Edit) (st : State) (values : Dict (Dict Section)) (c s : String)
    → is_some (lookup2 c s values) ≡ true
    → All (NotNamed s) es
    → IsEdited values c s st
    → IsEdited values c s (edits st es)
unfolding edits
edits-IsEdited [] st values c s there n h = h
edits-IsEdited (e ∷ es) st values c s there n h =
    edits-IsEdited es (edit st e) values c s there n.1 (edit-IsEdited values c s there e st h n.0)

-- The store after `load`, without edits.
abbrev pub unedited : Dict (Dict Section) → State
unedited values = record {
  newidx = 0;
  values = values;
  creates = [];
  changes = [];
  deletes = [];
  reorder = [];
}

pub unedited-IsEdited :
    (values : Dict (Dict Section)) (c s : String) → IsEdited values c s (unedited values)
unfolding lookup2 lookup
unedited-IsEdited values c s = record {
  loaded_kept = refl;
  changes_loaded = tt;
  changes_distinct = (tt, tt);
  deletes_distinct = (tt, tt);
  not_created = refl;
  not_asked = tt;
}

module _ (router : Router) where
  open router use {R, has, read, other}

  AllHas-loaded :
      (values : Dict (Dict Section)) (r : R) (c : String) (m : Dict (Dict Value))
      → ((c s : String) → has r c s ≡ is_some (lookup2 c s values))
      → All (λ e. is_some (lookup2 c e.0 values) ≡ true) m
      → AllHas router r c m
  AllHas-loaded values r c [] agree h = tt
  AllHas-loaded values r c ((sid, o) ∷ m) agree h =
      (agree c sid ∙ h.0, AllHas-loaded values r c m agree h.1)

  AllHas2-loaded :
      (values : Dict (Dict Section)) (r : R) (d : Dict (Dict (Dict Value)))
      → ((c s : String) → has r c s ≡ is_some (lookup2 c s values))
      → All (λ e. All (λ f. is_some (lookup2 e.0 f.0 values) ≡ true) e.1) d
      → AllHas2 router r d
  AllHas2-loaded values r [] agree h = tt
  AllHas2-loaded values r ((c, m) ∷ d) agree h =
      (AllHas-loaded values r c m agree h.0, AllHas2-loaded values r d agree h.1)

  -- A page loads the router's sections, makes any edits, and saves: then the router has for each option
  -- of a loaded section what it stores of the value that `get` returned before `save`, and no option
  -- where `get` returned none: a text that is not empty is there as `get` returned it, and an option that
  -- was an empty list is not there. The option is no attribute of the section, and no section is
  -- added under the name of this one.
  pub edits-save :
      (values : Dict (Dict Section)) (r : R) (es : List Edit) (c s opt : String)
      → is_meta opt ≡ false
      → ((c s : String) → has r c s ≡ is_some (lookup2 c s values))
      → read r c s opt ≡ loaded (unedited values) c s opt
      → is_some (lookup2 c s values) ≡ true
      → All (NotNamed s) es
      → read (run_all router (save_calls (edits (unedited values) es)) r) c s opt
        ≡ keep (kept other) (get_option (edits (unedited values) es) c s opt)
  unfolding loaded
  edits-save values r es c s opt p agree e there n =
      let st = edits (unedited values) es in
      let h =
        edits-IsEdited es (unedited values) values c s there n (unedited-IsEdited values c s) in
      save_calls-get_option router st r c s opt p h.changes_distinct h.deletes_distinct
        (AllHas2-loaded values r st.changes agree h.changes_loaded) h.not_asked h.not_created
        (agree c s ∙ there) (e ∙ ground (arith, h.loaded_kept))
