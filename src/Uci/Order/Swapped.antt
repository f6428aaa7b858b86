-- ===== src/Uci/Order/Swapped.antt =====
-- What `swap` does to the sections that `get` returns.
use text.Mathlib.Text.{◌==◌}
use xluci.Prelude.{
  ℕ, String, Bool, true, false, Option, none, some, ◌≡◌, ◌∙◌, refl, arith, eq_iff, if◌then◌else◌,
  inl, inr, Option-cases,
}
use xluci.Prelude.Dict.{Dict, lookup2, lookup2-put2, lookup, lookup-put, put}
use xluci.Uci.Store.{Section, State}
use xluci.Uci.Access.{get_section}
use xluci.Uci.Order.{set_index, swap}

abbrev pub at : String → String → String → String → Bool
at c s c' s' = if c == c' then s == s' else false

abbrev pub reindex : ℕ → Option Section → Option Section
reindex i none = none
reindex i (some s) = some (record s { index = i })

get_section-set_index :
    (st : State) (conf sid : String) (i : ℕ) (c s : String)
    → get_section (set_index st conf sid i) c s
      ≡ (if at conf sid c s then reindex i (get_section st c s) else get_section st c s)
unfolding get_section set_index
get_section-set_index st conf sid i c s = elim (Option-cases (lookup2 conf sid st.creates)) [
  | inr (x, e) ↦ ground (
    arith,
    e,
    eq_iff conf c,
    eq_iff sid s,
    lookup2-put2 conf sid c s (record x { index = i }) st.creates,
  )
  | inl e ↦ elim (Option-cases (lookup2 conf sid st.values)) [
    | inr (x, e') ↦ ground (
      arith,
      e,
      e',
      eq_iff conf c,
      eq_iff sid s,
      lookup2-put2 conf sid c s (record x { index = i }) st.values,
    )
    | inl e' ↦ ground (arith, e, e', eq_iff conf c, eq_iff sid s)
  ]
]

get_section-reorder :
    (st : State) (r : Dict (Unit {0})) (c s : String)
    → get_section (record st { reorder = r }) c s ≡ get_section st c s
unfolding get_section
get_section-reorder st r c s = refl

-- The state after a swap of two sections that are there.
abbrev pub swapped : State → String → String → String → Section → Section → State
swapped st conf sid1 sid2 s1 s2 =
    let st' = set_index (set_index st conf sid1 s2.index) conf sid2 s1.index in
    record st' { reorder = put conf tt st'.reorder }

swap-swapped :
    (st : State) (conf sid1 sid2 : String) (s1 s2 : Section)
    → get_section st conf sid1 ≡ some s1
    → get_section st conf sid2 ≡ some s2
    → swap st conf sid1 sid2 ≡ (swapped st conf sid1 sid2 s1 s2, true)
unfolding swap
swap-swapped st conf sid1 sid2 s1 s2 e1 e2 = rw (e1, swap) (rw (e2, swap))

get_section-swapped :
    (st : State) (conf sid1 sid2 : String) (s1 s2 : Section) (c s : String)
    → get_section st conf sid1 ≡ some s1
    → get_section st conf sid2 ≡ some s2
    → get_section (swapped st conf sid1 sid2 s1 s2) c s ≡ (
        if at conf sid1 c s
        then some (record s1 { index = s2.index })
        else if at conf sid2 c s
        then some (record s2 { index = s1.index })
        else get_section st c s)
get_section-swapped st conf sid1 sid2 s1 s2 c s e1 e2 =
    let st' = set_index (set_index st conf sid1 s2.index) conf sid2 s1.index in
    get_section-reorder st' (put conf tt st'.reorder) c s
    ∙ ground (
      arith,
      e1,
      e2,
      eq_iff conf c,
      eq_iff sid1 s,
      eq_iff sid2 s,
      get_section-set_index (set_index st conf sid1 s2.index) conf sid2 s1.index c s,
      get_section-set_index st conf sid1 s2.index c s,
    )

-- `swap(conf, sid1, sid2)` on two sections that `get` returns answers true, exchanges their indices,
-- changes nothing else of the two and no other section, and marks the package for reordering.
pub swap_lem :
    (st : State) (conf sid1 sid2 : String) (s1 s2 : Section)
    → get_section st conf sid1 ≡ some s1
    → get_section st conf sid2 ≡ some s2
    → ((swap st conf sid1 sid2).1 ≡ true)
      × (lookup conf (swap st conf sid1 sid2).0.reorder ≡ some tt)
      × ((c s : String)
          → get_section (swap st conf sid1 sid2).0 c s ≡ (
              if at conf sid1 c s
              then some (record s1 { index = s2.index })
              else if at conf sid2 c s
              then some (record s2 { index = s1.index })
              else get_section st c s))
swap_lem st conf sid1 sid2 s1 s2 e1 e2 = rw (swap-swapped st conf sid1 sid2 s1 s2 e1 e2) (
  refl,
  ground (
    arith,
    eq_iff conf conf,
    lookup-put conf conf tt
        (set_index (set_index st conf sid1 s2.index) conf sid2 s1.index).reorder,
  ),
  λ c s. get_section-swapped st conf sid1 sid2 s1 s2 c s e1 e2,
)
