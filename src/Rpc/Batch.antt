-- ===== src/Rpc/Batch.antt =====
-- `declare`, `batch`, `flush` and the loop of `_call_cb` of rpc.js.
pub mod Pending
pub mod Replies
use xluci.Prelude.{
  ℕ, zero, suc, ◌+◌, String, Bool, true, false, Option, none, some, List, [], ◌∷◌, ◌++◌, ◌==◌,
  length, if◌then◌else◌,
}
use xluci.Prelude.Dict.{Dict}
use xluci.Rpc.Json.{Json}
use xluci.Rpc.Reply.{Message, Taken, taken, type_error, Request, interpret}

-- A message to the router: its id and the object, the method and the parameters of the call.
pub record Msg : Type 0 where
  pub id : ℕ
  pub object : String
  pub method : String
  pub params : Dict Json

pub record Rpc : Type 0 where
  pub id : ℕ
  pub batch : Option (List Msg)
  pub requests : List (ℕ × Request)

unfoldable pub find : ℕ → List (ℕ × Request) → Option Request
find k [] = none
find k ((j, r) ∷ rs) = if j == k then some r else find k rs

unfoldable pub drop : ℕ → List (ℕ × Request) → List (ℕ × Request)
drop k [] = []
drop k ((j, r) ∷ rs) = let rest = drop k rs in if j == k then rest else (j, r) ∷ rest

-- The options of `declare`, with the arguments of one call.
pub record Invocation : Type 0 where
  pub object : String
  pub method : String
  pub params : Dict Json
  pub expect : Option (String × Json)
  pub filter : Option (Option Json → Option Json)

-- batch()
unfoldable pub start_batch : Rpc → Rpc
start_batch st = elim st.batch [ none ↦ record st { batch = some [] } | some b ↦ st ]

unfoldable pub message : Rpc → Invocation → Msg
message st c = record { id = st.id; object = c.object; method = c.method; params = c.params }

unfoldable pub store_request : Rpc → Invocation → Option ℕ → Option (List Msg) → Rpc
store_request st c index batch = record st {
  id = st.id + 1;
  batch = batch;
  requests = (st.id, record { expect = c.expect; filter = c.filter; index = index }) ∷ st.requests;
}

-- A call of a declared function: in a batch the message is kept, else it is to be sent.
unfoldable pub invoke : Rpc → Invocation → Rpc × Option Msg
unfolding message store_request
invoke st c = elim st.batch [
  | some b ↦ (store_request st c (some (length b)) (some (b ++ message st c ∷ [])), none)
  | none ↦ (store_request st c none none, some (message st c))
]

-- Calls one behind the other.
unfoldable pub invoke_all : Rpc → List Invocation → Rpc
invoke_all st [] = st
invoke_all st (c ∷ cs) = invoke_all (invoke st c).0 cs

-- flush(): the batch that is to be sent
unfoldable pub flush : Rpc → Rpc × Option (List Msg)
flush st = (record st { batch = none }, st.batch)

-- `data`: the array of the values by index, or the value of a call outside a batch.
pub data Answers : Type 0 where
  many : List (ℕ × Option Json) → Answers
  one : Option Json → Answers

-- The end of the callback's loop, or the error that it throws.
pub data Done : Type 0 where
  done : Answers → Rpc → Done
  no_request : Done
  failed : Done

-- data[index] = ret; an array has one value for an index, the last
unfoldable pub put_answer : Option ℕ → Option Json → Answers → Answers
put_answer (some i) ret (many l) = many ((i, ret) ∷ l)
put_answer (some i) ret (one v) = one v
put_answer none ret answers = one ret

unfoldable pub read : ℕ → List (ℕ × Option Json) → Option (Option Json)
read i [] = none
read i ((j, v) ∷ l) = if j == i then some v else read i l

-- The loop of `_call_cb` over the replies, with the messages that were sent.
unfoldable pub call_cb : Rpc → List Msg → List Message → Answers → Done
call_cb st reqs [] answers = done answers st
call_cb st [] (m ∷ msgs) answers = failed
call_cb st (q ∷ reqs) (m ∷ msgs) answers = elim (find q.id st.requests) [
  | none ↦ no_request
  | some req ↦ elim (interpret req m) [
    | type_error ↦ failed
    | taken ret ↦
        call_cb (record st { requests = drop q.id st.requests }) reqs msgs
          (put_answer req.index ret answers)
  ]
]
