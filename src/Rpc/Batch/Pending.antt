-- ===== src/Rpc/Batch/Pending.antt =====
-- The requests and messages of the calls of a batch.
use xluci.Prelude.{
  ℕ, ◌+◌, ◌≤◌, ◌<◌, Option, none, some, List, [], ◌∷◌, ◌++◌, ◌==◌, ◌≡◌, refl, arith, length,
  length-append, if◌then◌else◌,
}
use mathlib.Core.List.{append_assoc, append-nil}
use xluci.Rpc.Reply.{Request}
use xluci.Rpc.Batch.{Msg, Rpc, find, drop, Invocation, invoke, invoke_all, message}

abbrev pub request : Invocation → ℕ → Request
request c i = record { expect = c.expect; filter = c.filter; index = some i }

-- The messages of calls that are made one behind the other, the first with this id.
unfoldable pub messages : ℕ → List Invocation → List Msg
messages id [] = []
messages id (c ∷ cs) =
    record { id = id; object = c.object; method = c.method; params = c.params }
    ∷ messages (id + 1) cs

-- The entries of such calls, in front of those that are there.
pub pending : ℕ → ℕ → List Invocation → List (ℕ × Request) → List (ℕ × Request)
pending id i [] rs = rs
pending id i (c ∷ cs) rs = pending (id + 1) (i + 1) cs ((id, request c i) ∷ rs)

-- What is found under an id after such calls.
unfoldable pub expected : List (ℕ × Request) → ℕ → ℕ → List Invocation → ℕ → Option Request
expected rs id i [] k = find k rs
expected rs id i (c ∷ cs) k =
    let rest = expected rs (id + 1) (i + 1) cs k in if id == k then some (request c i) else rest

pub find-drop :
    (k j : ℕ) (rs : List (ℕ × Request)) → find j (drop k rs) ≡ (if k == j then none else find j rs)
unfolding find drop
find-drop k j [] = ground arith
find-drop k j ((i, r) ∷ rs) = ground (arith, find-drop k j rs)

expected-cons :
    (rs : List (ℕ × Request)) (n : ℕ) (r : Request) (id i : ℕ) (cs : List Invocation) (k : ℕ)
    → n < id
    → expected ((n, r) ∷ rs) id i cs k ≡ (if n == k then some r else expected rs id i cs k)
unfolding expected find
expected-cons rs n r id i [] k h = refl
expected-cons rs n r id i (c ∷ cs) k h =
    ground (arith, h, expected-cons rs n r (id + 1) (i + 1) cs k)

pub find-pending :
    (id i : ℕ) (cs : List Invocation) (rs : List (ℕ × Request)) (k : ℕ)
    → find k (pending id i cs rs) ≡ expected rs id i cs k
unfolding pending expected
find-pending id i [] rs k = refl
find-pending id i (c ∷ cs) rs k = ground (
  arith,
  find-pending (id + 1) (i + 1) cs ((id, request c i) ∷ rs) k,
  expected-cons rs id (request c i) (id + 1) (i + 1) cs k,
)

-- No request is stored under this id or a later one.
abbrev pub Fresh : List (ℕ × Request) → ℕ → Type 0
Fresh rs n = (k : ℕ) → n ≤ k → find k rs ≡ none

pub expected-Fresh :
    (rs : List (ℕ × Request)) (id n i : ℕ) (cs : List Invocation)
    → Fresh rs n
    → n < id
    → expected rs id i cs n ≡ none
unfolding expected
expected-Fresh rs id n i [] f h = f n (omega arith)
expected-Fresh rs id n i (c ∷ cs) f h = ground (arith, h, expected-Fresh rs (id + 1) n (i + 1) cs f)

-- The state after one call in a batch.
invoked : Rpc → List Msg → Invocation → Rpc
invoked st b c = record {
  id = st.id + 1;
  batch = some (b ++ message st c ∷ []);
  requests = (st.id, request c (length b)) ∷ st.requests;
}

invoke-invoked :
    (st : Rpc) (b : List Msg) (c : Invocation)
    → st.batch ≡ some b
    → (invoke st c).0 ≡ invoked st b c
unfolding invoke invoked
invoke-invoked st b c h = ground (arith, h)

pub invoke_all-pending :
    (st : Rpc) (b : List Msg) (cs : List Invocation)
    → st.batch ≡ some b
    → invoke_all st cs ≡ record {
      id = st.id + length cs;
      batch = some (b ++ messages st.id cs);
      requests = pending st.id (length b) cs st.requests;
    }
unfolding invoke_all messages pending message invoked
invoke_all-pending st b [] h = ground (arith, h, append-nil b)
invoke_all-pending st b (c ∷ cs) h =
    let st1 = invoked st b c in
    let n : length (b ++ message st c ∷ []) ≡ length b + 1 =
      omega (arith, length-append b (message st c ∷ [])) in
    ground (
      arith,
      n,
      invoke-invoked st b c h,
      invoke_all-pending st1 (b ++ message st c ∷ []) cs refl,
      append_assoc b (message st c ∷ []) (messages (st.id + 1) cs),
    )
