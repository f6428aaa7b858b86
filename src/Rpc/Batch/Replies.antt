-- ===== src/Rpc/Batch/Replies.antt =====
-- Each reply of a batch reaches the call that it answers.
use mathlib.Core.Path.{sym}
use native.Mathlib.Nat.{zero-add, add-zero}
use xluci.Prelude.{
  ℕ, zero, suc, ◌+◌, ◌<◌, Option, none, some, List, [], ◌∷◌, ◌≡◌, refl, arith, length, get_elem?,
  ◌∙◌, ap,
}
use xluci.Rpc.Json.{Json}
use xluci.Rpc.Reply.{Message, taken, type_error, Request, interpret}
use xluci.Rpc.Batch.{
  Msg, Rpc, find, drop, Invocation, invoke_all, flush, many, done, put_answer, read, call_cb,
  start_batch,
}
use xluci.Rpc.Batch.Pending.{
  request, messages, pending, expected, find-drop, find-pending, Fresh, expected-Fresh,
  invoke_all-pending,
}

-- The values that the replies give to the calls, where no reply makes the callback fail.
unfoldable pub interpreted : List Invocation → List Message → Option (List (Option Json))
interpreted [] [] = some []
interpreted (c ∷ cs) (m ∷ ms) =
    let rest = interpreted cs ms in
    elim (interpret (request c 0) m) [
      | type_error ↦ none
      | taken r ↦ elim rest [ none ↦ none | some rs ↦ some (r ∷ rs) ]
    ]
interpreted _ _ = none

-- The value that a reply gives does not depend on the place of the call.
interpret-request :
    (c : Invocation) (i j : ℕ) (m : Message) → interpret (request c i) m ≡ interpret (request c j) m
unfolding interpret
interpret-request c i j m = refl

interpret-head :
    (c : Invocation) (cs : List Invocation) (m : Message) (ms : List Message) (v : Option Json)
    (vs : List (Option Json))
    → interpreted (c ∷ cs) (m ∷ ms) ≡ some (v ∷ vs)
    → (interpret (request c 0) m ≡ taken v) × (interpreted cs ms ≡ some vs)
unfolding interpreted
interpret-head c cs m ms v vs h = ground (arith, h)

interpret-nonempty :
    (c : Invocation) (cs : List Invocation) (m : Message) (ms : List Message)
    → interpreted (c ∷ cs) (m ∷ ms) ≡ some []
    → ⊥
unfolding interpreted
interpret-nonempty c cs m ms h = ground (arith, h)

-- One pass of the loop.
pass :
    (c : Invocation) (m : Message) (st : Rpc) (i : ℕ) (q : Msg) (reqs : List Msg)
    (ms : List Message) (acc : List (ℕ × Option Json)) (v : Option Json)
    → find q.id st.requests ≡ some (request c i)
    → interpret (request c i) m ≡ taken v
    → call_cb st (q ∷ reqs) (m ∷ ms) (many acc)
      ≡ call_cb (record st { requests = drop q.id st.requests }) reqs ms (many ((i, v) ∷ acc))
unfolding call_cb put_answer
pass c m st i q reqs ms acc v found value = ground (arith, found, value)

agrees_after :
    (c : Invocation) (cs : List Invocation) (st : Rpc) (rs : List (ℕ × Request)) (id i k : ℕ)
    → Fresh rs id
    → find k st.requests ≡ expected rs id i (c ∷ cs) k
    → find k (drop id st.requests) ≡ expected rs (id + 1) (i + 1) cs k
unfolding expected
agrees_after c cs st rs id i k f h =
    ground (arith, h, find-drop id k st.requests, expected-Fresh rs (id + 1) id (i + 1) cs f)

expected-here :
    (rs : List (ℕ × Request)) (id i : ℕ) (c : Invocation) (cs : List Invocation)
    → expected rs id i (c ∷ cs) id ≡ some (request c i)
unfolding expected
expected-here rs id i c cs = ground arith

read_earlier :
    (i j : ℕ) (v : Option Json) (acc : List (ℕ × Option Json))
    → j < i
    → read j ((i, v) ∷ acc) ≡ read j acc
unfolding read
read_earlier i j v acc h = ground arith

read_later :
    (i : ℕ) (l : List (ℕ × Option Json)) (v : Option Json) (vs : List (Option Json))
    (acc : List (ℕ × Option Json))
    → read i l ≡ read i ((i, v) ∷ acc)
    → ((j : ℕ) (w : Option Json) → get_elem? vs j ≡ some w → read (i + 1 + j) l ≡ some w)
    → (j : ℕ) (w : Option Json) → get_elem? (v ∷ vs) j ≡ some w
    → read (i + j) l ≡ some w
unfolding read
read_later i l v vs acc e later zero w h = rw (add-zero i) (ground (arith, e, h))
read_later i l v vs acc e later (suc j) w h =
    let n : i + suc j ≡ i + 1 + j = omega arith in rw n (later j w h)

-- The loop, from the reply number `i` on: `rs` is what was stored before the batch.
loop :
    (cs : List Invocation) (ms : List Message) (st : Rpc) (rs : List (ℕ × Request)) (id i : ℕ)
    (acc : List (ℕ × Option Json)) (vs : List (Option Json))
    → Fresh rs id
    → ((k : ℕ) → find k st.requests ≡ expected rs id i cs k)
    → interpreted cs ms ≡ some vs
    → (l : List (ℕ × Option Json)) × (st' : Rpc) × (call_cb st (messages id cs) ms (many acc)
        ≡ done (many l) st')
      × ((j : ℕ) (v : Option Json) → get_elem? vs j ≡ some v → read (i + j) l ≡ some v)
      × ((j : ℕ) → j < i → read j l ≡ read j acc)
      × ((k : ℕ) → find k st'.requests ≡ find k rs)
unfolding call_cb messages interpreted expected
loop [] [] st rs id i acc vs f agrees h =
    (acc, st, refl, λ j v e. absurd (ground (arith, h, e)), λ j lt. refl, agrees)
loop [] (m ∷ ms) st rs id i acc vs f agrees h = absurd (ground (arith, h))
loop (c ∷ cs) [] st rs id i acc vs f agrees h = absurd (ground (arith, h))
loop (c ∷ cs) (m ∷ ms) st rs id i acc [] f agrees h = absurd (interpret-nonempty c cs m ms h)
loop (c ∷ cs) (m ∷ ms) st rs id i acc (v ∷ vs) f agrees h =
    let (value, rest) = interpret-head c cs m ms v vs h in
    let q : Msg = record { id = id; object = c.object; method = c.method; params = c.params } in
    let st1 = record st { requests = drop id st.requests } in
    let (l, st', result, later, earlier, kept) =
      loop cs ms st1 rs (id + 1) (i + 1) ((i, v) ∷ acc) vs (λ k le. f k (omega arith))
        (λ k. agrees_after c cs st rs id i k f (agrees k)) rest in
    (
      l,
      st',
      pass c m st i q (messages (id + 1) cs) ms acc v (agrees id ∙ expected-here rs id i c cs)
            (interpret-request c i 0 m ∙ value)
          ∙ result,
      read_later i l v vs acc (earlier i (omega arith)) later,
      λ j lt. earlier j (omega arith) ∙ read_earlier i j v acc lt,
      kept,
    )

invoke_all-start_batch :
    (st : Rpc) (cs : List Invocation)
    → st.batch ≡ none
    → invoke_all (start_batch st) cs ≡ record {
      id = st.id + length cs;
      batch = some (messages st.id cs);
      requests = pending st.id 0 cs st.requests;
    }
unfolding start_batch
invoke_all-start_batch st cs h =
    let st0 : Rpc = record st { batch = some [] } in
    let e : start_batch st ≡ st0 = ground (arith, h) in
    ap (λ s. invoke_all s cs) e ∙ invoke_all-pending st0 [] cs refl

-- Calls that are made in a fresh batch and flushed: if the router sends one reply for each call, and
-- none of them makes the callback fail, the callback's array holds at place j the value of the reply
-- to the call number j, and afterwards the table of requests is as it was before the batch.
pub batch-round_trip :
    (st : Rpc) (cs : List Invocation) (ms : List Message) (vs : List (Option Json))
    → st.batch ≡ none
    → Fresh st.requests st.id
    → interpreted cs ms ≡ some vs
    → (l : List (ℕ × Option Json)) × (st' : Rpc) × ((flush (invoke_all (start_batch st) cs)).1
        ≡ some (messages st.id cs))
      × (call_cb (flush (invoke_all (start_batch st) cs)).0 (messages st.id cs) ms (many [])
          ≡ done (many l) st')
      × ((j : ℕ) (v : Option Json) → get_elem? vs j ≡ some v → read j l ≡ some v)
      × ((k : ℕ) → find k st'.requests ≡ find k st.requests)
unfolding flush
batch-round_trip st cs ms vs none_yet f h =
    let st1 : Rpc = record {
      id = st.id + length cs;
      batch = none;
      requests = pending st.id 0 cs st.requests;
    } in
    let (l, st', result, later, _, kept) =
      loop cs ms st1 st.requests st.id 0 [] vs f (λ k. find-pending st.id 0 cs st.requests k) h in
    let e = invoke_all-start_batch st cs none_yet in
    (
      l,
      st',
      ap (λ s. s.batch) e,
      ap (λ s. call_cb (record s { batch = none }) (messages st.id cs) ms (many [])) e ∙ result,
      λ j v p. ap (λ k. read k l) (sym (zero-add j)) ∙ later j v p,
      kept,
    )
