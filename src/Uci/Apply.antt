-- ===== src/Uci/Apply.antt =====
-- `apply` of uci.js: the changes are applied with a rollback, and then confirmed; the confirmation is
-- tried again until it succeeds or a deadline passes.
pub mod Deadline
use xluci.Prelude.{ℕ, ◌+◌, ◌*◌, not, Option, none, some, List, [], ◌∷◌, ◌==◌, ltb, if◌then◌else◌}

-- The deferred object that `apply` returns.
pub data Outcome : Type 0 where
  pending : Outcome
  resolved : ℕ → Outcome
  rejected : ℕ → Outcome

-- typeof(timeout) != 'number' || timeout < 1
unfoldable pub effective_timeout : Option ℕ → ℕ
effective_timeout none = 10
effective_timeout (some t) = if ltb t 1 then 10 else t

-- One call of `try_confirm`, when the router has answered `rv`: `date` is the time that the object
-- `date` holds, which is the time at which `apply` was called. `pending`: it will be tried again.
unfoldable pub try_confirm : ℕ → ℕ → ℕ → Outcome
try_confirm date try_deadline rv =
    if not (rv == 0) then (if ltb date try_deadline then pending else rejected rv) else resolved rv

-- The calls of `try_confirm` for the answers so far.
unfoldable pub confirm_loop : ℕ → ℕ → List ℕ → Outcome
unfolding try_confirm
confirm_loop date try_deadline [] = pending
confirm_loop date try_deadline (rv ∷ rvs) = elim (try_confirm date try_deadline rv) [
  | pending ↦ confirm_loop date try_deadline rvs
  | resolved r ↦ resolved r
  | rejected r ↦ rejected r
]

-- apply(timeout), called at the time `date` (in ms), where the call of `apply` is answered by `rv`
-- and the calls of `confirm` by `rvs`
unfoldable pub apply : ℕ → Option ℕ → ℕ → List ℕ → Outcome
unfolding effective_timeout confirm_loop
apply date timeout rv rvs =
    if not (rv == 0)
    then rejected rv
    else confirm_loop date (date + 1000 * effective_timeout timeout) rvs
