-- ===== src/Uci/Edits.antt =====
-- Sequences of edits of the store: what a page does between `load` and `save`.
pub mod Keys
pub mod Invariant
pub mod Saved
use xluci.Prelude.{ℕ, String, Option, none, some, List, [], ◌∷◌}
use xluci.Uci.Store.{Value, State}
use xluci.Uci.Access.{set_option, remove}
use xluci.Uci.Create.{add}

-- A call of `set` (or `unset`, with no value), `remove` or `add`.
pub data Edit : Type 0 where
  to_set : String → String → String → Option Value → Edit
  to_remove : String → String → Edit
  to_add : ℕ → (ℕ → String) → String → String → Option String → Edit

unfoldable pub edit : State → Edit → State
edit st (to_set conf sid opt val) = set_option st conf sid opt val
edit st (to_remove conf sid) = remove st conf sid
edit st (to_add fuel draw conf type name) = elim (add fuel draw st conf type name) [
  | none ↦ st
  | some (sid, st') ↦ st'
]

unfoldable pub edits : State → List Edit → State
unfolding edit
edits st [] = st
edits st (e ∷ es) = edits (edit st e) es
