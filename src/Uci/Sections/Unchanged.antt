-- ===== src/Uci/Sections/Unchanged.antt =====
-- `sections` numbers the created sections and changes no option.
use xluci.Prelude.{
  All-append, All-map, String, false, Option, none, some, List, [], ◌∷◌, ◌≡◌, refl, ◌∙◌, arith,
  eq_iff, All, inl, inr, Option-cases,
}
use xluci.Prelude.Dict.{Dict, lookup, lookup2, put2, lookup2-put2}
use xluci.Uci.Store.{Section, State, is_meta}
use xluci.Uci.Access.{get_option}
use xluci.Uci.Sections.{
  Item, base_items, created_items, or_empty, gather, sort, number, write_back, sections,
}
use xluci.Uci.Save.Sets.{Distinct, Distinct2}
use xluci.Uci.Edits.Keys.{Distinct2-put2, at-Each}
use xluci.Uci.Sections.Owned.{
  opt_at, get_option-creates, Own, number-Own, base_items-Own, created_items-Own, sort-All,
  entries-lookup,
}

module _ (conf o : String) where
  created-Own :
      (n : Dict (Dict Section)) (type : Option String)
      → Distinct2 n
      → All (Own conf o n) (created_items type (or_empty (lookup conf n)))
  unfolding or_empty lookup2 created_items
  created-Own n type h = elim (Option-cases (lookup conf n)) [
    | inl e ↦ rw (e, or_empty) tt
    | inr (m, e) ↦
        rw (e, or_empty)
          (created_items-Own conf o n type m (
            All-map (λ x. lookup x.0 m ≡ some x.1) (λ x. lookup2 conf x.0 n ≡ some x.1) m
              (λ x k. ground (arith, e, k))
              (entries-lookup m (at-Each (λ c m. Distinct m) conf m n e h.1))))
  ]

  gather-Own :
      (st : State) (type : Option String)
      → Distinct2 st.creates
      → All (Own conf o st.creates) (gather st conf type)
  unfolding gather
  gather-Own st type h = elim (Option-cases (lookup conf st.values)) [
    | inl e ↦ rw (e, gather) tt
    | inr (v, e) ↦
        rw (e, gather)
          (All-append (Own conf o st.creates)
            (base_items (lookup conf st.deletes) (lookup conf st.changes) type v)
            (created_items type (or_empty (lookup conf st.creates)))
            (base_items-Own conf o st.creates (lookup conf st.deletes) (lookup conf st.changes) type
              v)
            (created-Own st.creates type h))
  ]

  -- x.sec is stored again, where it is a created section.
  store_item : Item → Dict (Dict Section) → Dict (Dict Section)
  store_item x n = elim x.origin [ none ↦ n | some sid ↦ put2 conf sid x.sec n ]

  opt_at-store_item :
      (x : Item) (n : Dict (Dict Section)) (c s : String)
      → Own conf o n x
      → opt_at (store_item x n) c s o ≡ opt_at n c s o
  unfolding store_item opt_at
  opt_at-store_item x n c s h =
      elim x.origin
          as (λ origin.
            elim origin as (λ g. Type 0) [
              | none ↦ Unit
              | some sid ↦ opt_at n conf sid o ≡ some (lookup o x.sec.options)
            ]
            → opt_at
                (elim origin as (λ g. Dict (Dict Section)) [
                  | none ↦ n
                  | some sid ↦ put2 conf sid x.sec n
                ])
                c s o
              ≡ opt_at n c s o) [
                | none ↦ λ h. refl
                | some sid ↦ λ h.
                    ground
                      (arith, h, eq_iff conf c, eq_iff sid s, lookup2-put2 conf sid c s x.sec n)
              ]
        h

  Own-store_item :
      (x : Item) (n : Dict (Dict Section))
      → Own conf o n x
      → (y : Item) → Own conf o n y
      → Own conf o (store_item x n) y
  Own-store_item x n h y k =
      elim y.origin
          as (λ origin.
            elim origin as (λ g. Type 0) [
              | none ↦ Unit
              | some sid ↦ opt_at n conf sid o ≡ some (lookup o y.sec.options)
            ]
            → elim origin as (λ g. Type 0) [
              | none ↦ Unit
              | some sid ↦ opt_at (store_item x n) conf sid o ≡ some (lookup o y.sec.options)
            ]) [ none ↦ λ k. tt | some sid ↦ λ k. opt_at-store_item x n conf sid h ∙ k ]
        k

  store_item-Distinct2 :
      (x : Item) (n : Dict (Dict Section)) → Distinct2 n → Distinct2 (store_item x n)
  unfolding store_item
  store_item-Distinct2 x n h =
      elim x.origin
        as (λ origin. Distinct2 (elim origin as (λ g. Dict (Dict Section)) [
          | none ↦ n
          | some sid ↦ put2 conf sid x.sec n
        ])) [ none ↦ h | some sid ↦ Distinct2-put2 conf sid x.sec n h ]

  -- The numbering writes back sections with the options that they had.
  opt_at-write_back :
      (xs : List Item) (n : Dict (Dict Section)) (c s : String)
      → All (Own conf o n) xs
      → opt_at (write_back conf xs n) c s o ≡ opt_at n c s o
  unfolding write_back store_item
  opt_at-write_back [] n c s h = refl
  opt_at-write_back (x ∷ xs) n c s h =
      opt_at-write_back xs (store_item x n) c s
        (All-map (Own conf o n) (Own conf o (store_item x n)) xs (Own-store_item x n h.0) h.1)
      ∙ opt_at-store_item x n c s h.0

  write_back-Distinct2 :
      (xs : List Item) (n : Dict (Dict Section)) → Distinct2 n → Distinct2 (write_back conf xs n)
  unfolding write_back store_item
  write_back-Distinct2 [] n h = h
  write_back-Distinct2 (x ∷ xs) n h =
      write_back-Distinct2 xs (store_item x n) (store_item-Distinct2 x n h)

  -- A call of `sections` changes no option that `get` reads, and keeps the keys of the created sections
  -- distinct.
  pub sections-get_option :
      (st : State) (type : Option String) (c s : String)
      → Distinct2 st.creates
      → is_meta o ≡ false
      → get_option (sections st conf type).1 c s o ≡ get_option st c s o
  unfolding sections
  sections-get_option st type c s h plain =
      let items = number 0 (sort (gather st conf type)) in
      get_option-creates st (write_back conf items st.creates) c s o plain (
        opt_at-write_back items st.creates c s (
          number-Own conf o st.creates 0 (sort (gather st conf type))
            (sort-All conf o (Own conf o st.creates) (gather st conf type) (gather-Own st type h))))

pub sections-Distinct2 :
    (st : State) (conf : String) (type : Option String)
    → Distinct2 st.creates
    → Distinct2 (sections st conf type).1.creates
unfolding sections
sections-Distinct2 st conf type h =
    write_back-Distinct2 conf "" (number 0 (sort (gather st conf type))) st.creates h
