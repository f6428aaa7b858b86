-- ===== src/Uci/Save/Unloaded.antt =====
-- What `get` returns after `unload`.
use text.Mathlib.Text.{◌==◌}
use xluci.Prelude.{String, none, List, [], ◌∷◌, ◌≡◌, refl, arith, if◌then◌else◌}
use xluci.Prelude.Dict.{Dict, remove, lookup2, lookup-remove}
use xluci.Uci.Store.{State}
use xluci.Uci.Access.{contains, get_option, base_option, changed, loaded, hides}
use xluci.Uci.Save.{unload}

lookup2-remove {ℓ} :
    {V : Type ℓ} (p c s : String) (d : Dict (Dict V))
    → lookup2 c s (remove p d) ≡ (if p == c then none else lookup2 c s d)
unfolding lookup2
lookup2-remove p c s d = ground (arith, lookup-remove p c d)

abbrev without : State → String → State
without st p = record st {
  values = remove p st.values;
  creates = remove p st.creates;
  changes = remove p st.changes;
  deletes = remove p st.deletes;
}

get_option-without :
    (st : State) (p conf sid opt : String)
    → get_option (without st p) conf sid opt
      ≡ (if p == conf then none else get_option st conf sid opt)
unfolding get_option base_option changed loaded hides
get_option-without st p conf sid opt = ground (
  arith,
  lookup2-remove p conf sid st.values,
  lookup2-remove p conf sid st.creates,
  lookup2-remove p conf sid st.changes,
  lookup2-remove p conf sid st.deletes,
)

-- After `unload(packages)` no option of these packages can be read, neither loaded nor edited ones;
-- the options of the other packages read as before.
pub get_option-unload :
    (st : State) (packages : List String) (conf sid opt : String)
    → get_option (unload st packages) conf sid opt
      ≡ (if contains packages conf then none else get_option st conf sid opt)
unfolding unload contains
get_option-unload st [] conf sid opt = refl
get_option-unload st (p ∷ packages) conf sid opt = ground (
  arith,
  get_option-unload (without st p) packages conf sid opt,
  get_option-without st p conf sid opt,
)
