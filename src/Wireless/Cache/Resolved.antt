-- ===== src/Wireless/Cache/Resolved.antt =====
-- When the load of the radios is done.
use xluci.Prelude.{
  ℕ, ◌-◌, ◌≤◌, String, Bool, true, false, List, [], ◌∷◌, ◌==◌, ◌≡◌, ◌↔◌, refl, arith, length,
  if◌then◌else◌,
}
use xluci.Uci.Access.{is_some}
use xluci.Wireless.Cache.{Answer, Cache, start, answer, answers}

-- The last answer has the status of its radio.
abbrev pub last_given : {V : Type 0} → List (String × Answer V) → Bool
last_given [] = false
last_given ((sid, reply) ∷ []) = is_some reply.info
last_given (x ∷ y ∷ l) = last_given (y ∷ l)

module _ {V : Type 0} where
  cnt-answer :
      (sid : String) (reply : Answer V) (st : Cache V) → (answer sid reply st).cnt ≡ st.cnt - 1
  unfolding answer
  cnt-answer sid reply st = ground arith

  resolved-answer :
      (sid : String) (reply : Answer V) (st : Cache V)
      → (answer sid reply st).resolved ≡ (
          if is_some reply.info
          then (if st.cnt - 1 == 0 then true else st.resolved)
          else st.resolved)
  unfolding answer is_some
  resolved-answer sid reply st = ground arith

  resolved-answers :
      (l : List (String × Answer V)) (st : Cache V)
      → st.resolved ≡ false
      → length l ≤ st.cnt
      → (answers l st).resolved ≡ (if length l == st.cnt then last_given l else false)
  unfolding answers
  resolved-answers [] st h n = ground (arith, h)
  resolved-answers ((sid, reply) ∷ []) st h n = ground (arith, h, n, resolved-answer sid reply st)
  resolved-answers ((sid, reply) ∷ y ∷ l) st h n =
      let st1 = answer sid reply st in
      let h1 : st1.resolved ≡ false = ground (arith, h, n, resolved-answer sid reply st) in
      let rest = resolved-answers (y ∷ l) st1 h1 (omega (arith, n, cnt-answer sid reply st)) in
      ground (arith, n, rest, cnt-answer sid reply st)

-- The load is done exactly if every section of the type wifi-device has its answer, in any order, and
-- the answer that comes last has the status of its radio: so never if there is no such section, and
-- never if the last answer has no status.
pub load_cache-resolved :
    {V : Type 0} (n : ℕ) (l : List (String × Answer V))
    → length l ≤ n
    → ((answers l (start n)).resolved ≡ true) ↔ ((length l ≡ n) × (last_given l ≡ true))
unfolding start
load_cache-resolved n l h =
    let e = resolved-answers l (start n) refl h in
    (λ r. (ground (arith, e, r), ground (arith, e, r)), λ k. ground (arith, e, k.0, k.1))
