-- ===== src/Uci/Access/Removed.antt =====
-- What `get` returns after `remove`.
use text.Mathlib.Text.{◌==◌}
use xluci.Prelude.{
  String, false, none, ◌≡◌, refl, arith, eq_iff, if◌then◌else◌, inl, inr, Option-cases,
}
use xluci.Prelude.Dict.{Dict, lookup2, put2, remove2, lookup2-put2, lookup2-remove2}
use xluci.Uci.Store.{Section, whole, State}
use xluci.Uci.Access.{hides, changed, loaded, base_option, get_option, is_some, remove}

-- The options of loaded sections do not depend on the created ones.
base_option-created :
    (st : State) (creates : Dict (Dict Section)) (conf sid opt : String)
    → base_option (record st { creates = creates }) conf sid opt ≡ base_option st conf sid opt
unfolding base_option changed loaded
base_option-created st creates conf sid opt = refl

base_option-remove :
    (st : State) (conf sid conf' sid' opt : String)
    → base_option
        (record st {
          changes = remove2 conf sid st.changes;
          deletes = put2 conf sid whole st.deletes;
        })
        conf'
        sid'
        opt
      ≡ (if conf == conf'
          then (if sid == sid' then none else base_option st conf' sid' opt)
          else base_option st conf' sid' opt)
unfolding base_option changed loaded hides
base_option-remove st conf sid conf' sid' opt = ground (
  arith,
  lookup2-put2 conf sid conf' sid' whole st.deletes,
  lookup2-remove2 conf sid conf' sid' st.changes,
)

-- After `remove(conf, sid)` no option of the section can be read, unless the section was created
-- here over a loaded one of the same name, whose options then show again; the options of every other
-- section read as before.
pub get_option-remove :
    (st : State) (conf sid conf' sid' opt : String)
    → get_option (remove st conf sid) conf' sid' opt ≡ (
        if (if conf == conf' then sid == sid' else false)
        then (if is_some (lookup2 conf sid st.creates) then base_option st conf' sid' opt else none)
        else get_option st conf' sid' opt)
unfolding get_option remove is_some
get_option-remove st conf sid conf' sid' opt = elim (Option-cases (lookup2 conf sid st.creates)) [
  | inl e ↦
      ground (
        arith,
        e,
        eq_iff conf conf',
        eq_iff sid sid',
        base_option-remove st conf sid conf' sid' opt,
      )
  | inr (s, e) ↦ ground (
    arith,
    e,
    base_option-created st (remove2 conf sid st.creates) conf' sid' opt,
    lookup2-remove2 conf sid conf' sid' st.creates,
  )
]
