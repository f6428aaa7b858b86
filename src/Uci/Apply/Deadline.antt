-- ===== src/Uci/Apply/Deadline.antt =====
-- When `apply` ends.
use xluci.Prelude.{ℕ, ◌+◌, ◌*◌, ◌<◌, Option, List, [], ◌∷◌, ◌≡◌, arith, refl, ◌==◌, if◌then◌else◌}
use xluci.Uci.Apply.{
  Outcome, pending, resolved, rejected, effective_timeout, try_confirm, confirm_loop, apply,
}

effective_timeout_pos : (timeout : Option ℕ) → 0 < effective_timeout timeout
unfolding effective_timeout
effective_timeout_pos timeout = ground arith

-- What the loop should do with an answer: go on while the answers are errors.
unfoldable pub first_success : List ℕ → Outcome
first_success [] = pending
first_success (rv ∷ rvs) = let rest = first_success rvs in if rv == 0 then resolved 0 else rest

confirm_loop-first_success :
    (date deadline : ℕ) (rvs : List ℕ)
    → date < deadline
    → confirm_loop date deadline rvs ≡ first_success rvs
unfolding confirm_loop try_confirm first_success
confirm_loop-first_success date deadline [] h = refl
confirm_loop-first_success date deadline (rv ∷ rvs) h =
    ground (arith, confirm_loop-first_success date deadline rvs h)

-- An apply that the router refuses is rejected. One that it accepts is resolved by the first answer
-- 0 to a confirmation, and is pending for ever if there is none: whatever the timeout and however
-- many confirmations fail, the deadline never rejects it, since the time that is compared with it is
-- the time of the call.
pub apply-first_success :
    (date : ℕ) (timeout : Option ℕ) (rv : ℕ) (rvs : List ℕ)
    → apply date timeout rv rvs ≡ (if rv == 0 then first_success rvs else rejected rv)
unfolding apply
apply-first_success date timeout rv rvs = ground (
  arith,
  effective_timeout_pos timeout,
  confirm_loop-first_success date (date + 1000 * effective_timeout timeout) rvs,
)
