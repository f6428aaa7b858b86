-- ===== src/Uci/Save/Refined.antt =====
-- The router after the calls of `save`: a loaded section has the options that `get` returned before.
use text.Mathlib.Text.{◌==◌}
use xluci.Prelude.{
  String, true, false, none, Option-cases, inl, inr, some, [], ◌∷◌, ◌++◌, ◌≡◌, ◌≢◌, refl, ◌∙◌,
  arith, eq_iff, if◌then◌else◌, All, ap,
}
use xluci.Prelude.Dict.{Dict, lookup, lookup2}
use xluci.Uci.Store.{Value, Section, Deletion, whole, opts, State, is_meta}
use xluci.Uci.Access.{get_option, base_option, changed, loaded, hides}
use xluci.Uci.Order.{call_add, call_delete}
use xluci.Uci.Save.{add_calls, set_calls, delete_calls, options_arg, each_package, save_calls}
use xluci.Uci.Save.Router.{Router, same_section, kept, keep}
use xluci.Uci.Save.Sets.{
  Distinct, Distinct2, run_all, run_all-append, AllHas, AllHas2, read-all_sets,
}

module _ (router : Router) where
  open router use {
    R, run, has, read, other, kept-read, read-delete, read-delete_options, has-add, read-add,
  }

  -- The deletions, of one package and of all.
  read-delete_call :
      (conf sid : String) (o : Deletion) (r : R) (c s k : String)
      → is_meta k ≡ false
      → read (run (call_delete conf sid (options_arg o)) r) c s k ≡ (
          if same_section conf sid c s
          then (if hides (some o) k then none else read r c s k)
          else read r c s k)
  unfolding options_arg hides
  read-delete_call conf sid whole r c s k p = read-delete r conf sid c s k p
  read-delete_call conf sid (opts l) r c s k p = read-delete_options r conf sid c s k l p

  read-delete_calls :
      (conf : String) (m : Dict Deletion) (r : R) (c s k : String)
      → is_meta k ≡ false
      → Distinct m
      → read (run_all router (delete_calls conf m) r) c s k ≡ (
          if conf == c then (if hides (lookup s m) k then none else read r c s k) else read r c s k)
  unfolding run_all delete_calls lookup hides
  read-delete_calls conf [] r c s k p d = ground arith
  read-delete_calls conf ((sid, o) ∷ m) r c s k p d = ground (
    arith,
    read-delete_calls conf m (run (call_delete conf sid (options_arg o)) r) c s k p d.1,
    read-delete_call conf sid o r c s k p,
    eq_iff sid s,
    eq_iff conf c,
    d.0,
  )

  read-all_deletes :
      (d : Dict (Dict Deletion)) (r : R) (c s k : String)
      → is_meta k ≡ false
      → Distinct2 d
      → read (run_all router (each_package delete_calls d) r) c s k
        ≡ (if hides (lookup2 c s d) k then none else read r c s k)
  unfolding each_package lookup2 lookup run_all hides
  read-all_deletes [] r c s k p u = refl
  read-all_deletes ((conf, m) ∷ d) r c s k p u =
      let r' = run_all router (delete_calls conf m) r in
      ap (λ x. read x c s k)
        (run_all-append router (delete_calls conf m) (each_package delete_calls d) r)
      ∙ ground (
        arith,
        read-all_deletes d r' c s k p (u.0.1, u.1.1),
        read-delete_calls conf m r c s k p u.1.0,
        eq_iff conf c,
        u.0.0,
      )

  -- The additions leave the sections that are there, if none of them asks for the name of one.
  abbrev pub NotAsked : String → Dict Section → Type 0
  NotAsked s = All (λ e. e.1.create ≢ some s)

  abbrev pub NotAsked2 : String → Dict (Dict Section) → Type 0
  NotAsked2 s = All (λ e. NotAsked s e.1)

  abbrev Kept : R → R → String → String → Type 0
  Kept r r' c s =
      (has r' c s ≡ true) × ((k : String) → is_meta k ≡ false → read r' c s k ≡ read r c s k)

  Kept-add_calls :
      (conf : String) (m : Dict Section) (r : R) (c s : String)
      → has r c s ≡ true
      → NotAsked s m
      → Kept r (run_all router (add_calls conf m) r) c s
  unfolding run_all add_calls
  Kept-add_calls conf [] r c s h n = (h, λ k p. refl)
  Kept-add_calls conf ((sid, x) ∷ m) r c s h n =
      let r' = run (call_add conf x.type x.create x.options) r in
      let (there, same) =
        Kept-add_calls conf m r' c s (has-add r c s conf x.type x.create x.options h) n.1 in
      (there, λ k p. same k p ∙ read-add r c s conf x.type k x.create x.options p h n.0)

  Kept-all_adds :
      (d : Dict (Dict Section)) (r : R) (c s : String)
      → has r c s ≡ true
      → NotAsked2 s d
      → Kept r (run_all router (each_package add_calls d) r) c s
  unfolding each_package run_all
  Kept-all_adds [] r c s h n = (h, λ k p. refl)
  Kept-all_adds ((conf, m) ∷ d) r c s h n =
      let r1 = run_all router (add_calls conf m) r in
      let (there, same) = Kept-add_calls conf m r c s h n.0 in
      let (there', same') = Kept-all_adds d r1 c s there n.1 in
      rw (run_all-append router (add_calls conf m) (each_package add_calls d) r)
        (there', λ k p. same' k p ∙ same k p)

  has-add_calls :
      (conf : String) (m : Dict Section) (r : R) (c s : String)
      → has r c s ≡ true
      → has (run_all router (add_calls conf m) r) c s ≡ true
  unfolding run_all add_calls
  has-add_calls conf [] r c s h = h
  has-add_calls conf ((sid, x) ∷ m) r c s h =
      has-add_calls conf m (run (call_add conf x.type x.create x.options) r) c s
        (has-add r c s conf x.type x.create x.options h)

  has-all_adds :
      (d : Dict (Dict Section)) (r : R) (c s : String)
      → has r c s ≡ true
      → has (run_all router (each_package add_calls d) r) c s ≡ true
  unfolding each_package run_all
  has-all_adds [] r c s h = h
  has-all_adds ((conf, m) ∷ d) r c s h =
      rw (run_all-append router (add_calls conf m) (each_package add_calls d) r)
        (has-all_adds d (run_all router (add_calls conf m) r) c s (has-add_calls conf m r c s h))

  AllHas-adds :
      (d : Dict (Dict Section)) (m : Dict (Dict Value)) (r : R) (conf : String)
      → AllHas router r conf m
      → AllHas router (run_all router (each_package add_calls d) r) conf m
  AllHas-adds d [] r conf h = tt
  AllHas-adds d ((sid, _) ∷ m) r conf h =
      (has-all_adds d r conf sid h.0, AllHas-adds d m r conf h.1)

  AllHas2-adds :
      (d : Dict (Dict Section)) (c : Dict (Dict (Dict Value))) (r : R)
      → AllHas2 router r c
      → AllHas2 router (run_all router (each_package add_calls d) r) c
  AllHas2-adds d [] r h = tt
  AllHas2-adds d ((conf, m) ∷ c) r h = (AllHas-adds d m r conf h.0, AllHas2-adds d c r h.1)

  -- What the router has is stored as it is.
  keep-read :
      (r : R) (c s k : String) → is_meta k ≡ false → keep (kept other) (read r c s k) ≡ read r c s k
  keep-read r c s k p = elim (Option-cases (read r c s k)) [
    | inl e ↦ ground (arith, e)
    | inr (v, e) ↦ ground (arith, e, kept-read r c s k v p e)
  ]

  -- `save` sends to the router what `get` shows: after its calls, the router has for every option of a
  -- loaded section what it stores of the value that `get` returned before, if the router had the option
  -- as it was loaded. The option is no attribute, the changes are of sections that the router has, none
  -- of the created sections asks for the name of this one, and the keys of the two maps are distinct.
  pub save_calls-get_option :
      (st : State) (r : R) (c s opt : String)
      → is_meta opt ≡ false
      → Distinct2 st.changes
      → Distinct2 st.deletes
      → AllHas2 router r st.changes
      → NotAsked2 s st.creates
      → lookup2 c s st.creates ≡ none
      → has r c s ≡ true
      → read r c s opt ≡ loaded st c s opt
      → read (run_all router (save_calls st) r) c s opt ≡ keep (kept other) (get_option st c s opt)
  unfolding save_calls get_option base_option changed
  save_calls-get_option st r c s opt p uc ud sent free none_created h same =
      let adds = each_package add_calls st.creates in
      let sets = each_package set_calls st.changes in
      let deletes = each_package delete_calls st.deletes in
      let r1 = run_all router adds r in
      let unchanged = (Kept-all_adds st.creates r c s h free).1 opt p in
      let initial = keep-read r c s opt p in
      let e =
        ap (λ x. read x c s opt)
          (run_all-append router adds (sets ++ deletes) r
            ∙ run_all-append router sets deletes r1) in
      e
      ∙ ground (
        arith,
        unchanged,
        initial,
        same,
        none_created,
        read-all_deletes st.deletes (run_all router sets r1) c s opt p ud,
        read-all_sets router st.changes r1 c s opt p uc (AllHas2-adds st.creates st.changes r sent),
      )
