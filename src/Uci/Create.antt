-- ===== src/Uci/Create.antt =====
-- New sections: `add` and `createSID` of uci.js.
pub mod Fresh
use text.Mathlib.Text.{◌==◌}
use xluci.Prelude.{
  ℕ, zero, suc, ◌+◌, String, Bool, true, false, ◌||◌, not, Option, none, some, [], if◌then◌else◌,
}
use xluci.Prelude.Dict.{lookup2, put2}
use xluci.Uci.Store.{State, Section}
use xluci.Uci.Access.{is_some}

-- (n[conf] && n[conf][sid]) || (v[conf] && v[conf][sid])
unfoldable pub taken : State → String → String → Bool
unfolding is_some
taken st conf sid = is_some (lookup2 conf sid st.creates) || is_some (lookup2 conf sid st.values)

-- createSID(conf): `draw k` is the name that the k-th pass of the loop makes at random. The loop
-- returns the first that is not taken; `none` if the first `fuel` draws are.
unfoldable pub create_sid : ℕ → (ℕ → String) → ℕ → State → String → Option String
create_sid zero draw k st conf = none
create_sid (suc fuel) draw k st conf = elim (taken st conf (draw k)) [
  | true ↦ create_sid fuel draw (suc k) st conf
  | false ↦ some (draw k)
]

-- A name that is not undefined and not empty.
unfoldable pub truthy : Option String → Option String
truthy none = none
truthy (some s) = if s == "" then none else some s

-- name || this.createSID(conf)
unfoldable pub choose_sid : ℕ → (ℕ → String) → State → String → Option String → Option String
choose_sid fuel draw st conf name = elim (truthy name) [
  | some s ↦ some s
  | none ↦ create_sid fuel draw 0 st conf
]

unfoldable pub new_section : State → String → Option String → String → Section
unfolding is_some truthy
new_section st type name sid = record {
  type = type;
  name = sid;
  create = name;
  anonymous = not (is_some (truthy name));
  index = 1000 + st.newidx;
  options = [];
}

-- The part of `add` behind the choice of the name.
unfoldable pub add_as : State → String → String → Option String → String → State
unfolding new_section
add_as st conf type name sid = record st {
  newidx = st.newidx + 1;
  creates = put2 conf sid (new_section st type name sid) st.creates;
}

-- add(conf, type, name): the name of the section, and the new state
unfoldable pub add :
    ℕ → (ℕ → String) → State → String → String → Option String → Option (String × State)
add fuel draw st conf type name = elim (choose_sid fuel draw st conf name) [
  | some sid ↦ some (sid, add_as st conf type name sid)
  | none ↦ none
]
