-- ===== src/Uci/Order.antt =====
-- `swap` and `reorderSections` of uci.js: the order of the sections.
pub mod Swapped
use xluci.Prelude.{ℕ, String, Bool, true, false, Option, none, some, List, [], ◌∷◌, ◌++◌, map}
use xluci.Prelude.Dict.{Dict, lookup, put, lookup2, put2}
use xluci.Uci.Store.{Value, Section, State}
use xluci.Uci.Access.{get_section}
use xluci.Uci.Sections.{Item, sort, or_empty}

-- s['.index'] = i, for the object that `get(conf, sid)` returns
unfoldable pub set_index : State → String → String → ℕ → State
set_index st conf sid i = elim (lookup2 conf sid st.creates) [
  | some s ↦ record st { creates = put2 conf sid (record s { index = i }) st.creates }
  | none ↦ elim (lookup2 conf sid st.values) [
    | some s ↦ record st { values = put2 conf sid (record s { index = i }) st.values }
    | none ↦ st
  ]
]

-- swap(conf, sid1, sid2): the state, and whether both sections are there
unfoldable pub swap : State → String → String → String → State × Bool
swap st conf sid1 sid2 = elim (get_section st conf sid1) [
  | none ↦ (st, false)
  | some s1 ↦ elim (get_section st conf sid2) [
    | none ↦ (st, false)
    | some s2 ↦
        let st' = set_index (set_index st conf sid1 s2.index) conf sid2 s1.index in
        (record st' { reorder = put conf tt st'.reorder }, true)
  ]
]

-- What is sent to the router.
pub data Call : Type 0 where
  call_load : String → Call
  call_order : String → List String → Call
  call_add : String → String → Option String → Dict Value → Call
  call_set : String → String → Dict Value → Call
  call_delete : String → String → Option (List String) → Call

abbrev plain_item : Section → Item
plain_item s = record { origin = none; sec = s }

-- The created and the loaded sections of the package, deleted ones too, by their index.
unfoldable pub ordered_names : State → String → List String
unfolding sort or_empty
ordered_names st c =
    map (λ x. x.sec.name)
      (sort (
        map (λ e. plain_item e.1)
          (or_empty (lookup c st.creates) ++ or_empty (lookup c st.values))))

unfoldable pub order_calls : State → List (String × Unit {0}) → List Call
unfolding ordered_names
order_calls st [] = []
order_calls st ((c, _) ∷ r) =
    let rest = order_calls st r in
    elim (ordered_names st c) [ [] ↦ rest | sid ∷ sids ↦ call_order c (sid ∷ sids) ∷ rest ]

-- reorderSections(): the calls, and the new state
unfoldable pub reorder_sections : State → List Call × State
unfolding order_calls
reorder_sections st = (order_calls st st.reorder, record st { reorder = [] })
