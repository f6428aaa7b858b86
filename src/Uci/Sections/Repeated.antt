-- ===== src/Uci/Sections/Repeated.antt =====
-- What a call of `sections` does to the calls after it, and what `sections` shows of deleted options.
use xluci.Prelude.{
  String, Option, none, some, [], ◌∷◌, ◌≡◌, refl, arith, eq_iff, inl, inr, Option-cases,
}
use xluci.Prelude.Dict.{Dict, lookup, lookup2, put2, lookup2-put2}
use xluci.Uci.Store.{Value, Section, State, Deletion, whole, opts}
use xluci.Uci.Access.{unset_base, push_deletion, is_whole}
use xluci.Uci.Sections.{base_items, gather, sections, entry}

is_whole-push_deletion :
    (e : Option Deletion) (o : String) → is_whole (some (push_deletion e o)) ≡ is_whole e
unfolding is_whole push_deletion
is_whole-push_deletion none o = refl
is_whole-push_deletion (some whole) o = refl
is_whole-push_deletion (some (opts l)) o = refl

-- `gather` reads of the deletions which sections are deleted, and no more.
base_items-cong :
    (d d' : Option (Dict Deletion)) (c : Option (Dict (Dict Value))) (type : Option String)
    (v : Dict Section)
    → ((sid : String) → is_whole (entry d sid) ≡ is_whole (entry d' sid))
    → base_items d c type v ≡ base_items d' c type v
unfolding base_items
base_items-cong d d' c type [] h = refl
base_items-cong d d' c type ((sid, s) ∷ v) h = rw (h sid, base_items-cong d d' c type v h)

entry-lookup2 {ℓ} :
    {V : Type ℓ} (d : Dict (Dict V)) (conf sid : String)
    → entry (lookup conf d) sid ≡ lookup2 conf sid d
unfolding entry lookup2
entry-lookup2 d conf sid = ground arith

entry-push :
    (d : Dict (Dict Deletion)) (conf sid opt conf' sid' : String)
    → is_whole
        (entry (lookup conf' (put2 conf sid (push_deletion (lookup2 conf sid d) opt) d)) sid')
      ≡ is_whole (entry (lookup conf' d) sid')
entry-push d conf sid opt conf' sid' = rw entry-lookup2 (
    rw entry-lookup2 (
      ground (
        arith,
        eq_iff conf conf',
        eq_iff sid sid',
        is_whole-push_deletion (lookup2 conf sid d) opt,
        lookup2-put2 conf sid conf' sid' (push_deletion (lookup2 conf sid d) opt) d,
      )))

gather-unset_base :
    (st : State) (conf sid opt conf' : String) (type : Option String)
    → gather (unset_base st conf sid opt) conf' type ≡ gather st conf' type
unfolding gather unset_base
gather-unset_base st conf sid opt conf' type = elim (Option-cases (lookup conf' st.values)) [
  | inl e ↦ ground (arith, e)
  | inr (v, e) ↦ ground (
    arith,
    e,
    base_items-cong _ _ (lookup conf' st.changes) type v (entry-push st.deletes conf sid opt conf'),
  )
]

-- Deleting an option of a loaded section does not change what `sections` returns: the option is
-- still there in the sections that it lists, though `get` no longer returns it.
pub sections-unset_base :
    (st : State) (conf sid opt : String) (conf' : String) (type : Option String)
    → (sections (unset_base st conf sid opt) conf' type).0 ≡ (sections st conf' type).0
unfolding sections
sections-unset_base st conf sid opt conf' type = rw (gather-unset_base st conf sid opt conf' type)
