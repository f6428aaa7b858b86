-- ===== src/Uci/Sections/Owned.antt =====
-- The items of `sections` that are created sections hold the options that are stored for these.
use xluci.Prelude.{
  ℕ, suc, String, false, Option, none, some, List, [], ◌∷◌, ◌≡◌, refl, arith, eq_iff, leb, All, inl,
  inr, Option-cases, Bool-cases,
}
use xluci.Prelude.Dict.{Dict, lookup, lookup2}
use xluci.Uci.Store.{Value, Section, Deletion, State, is_meta, field}
use xluci.Uci.Access.{get_option, base_option, changed, loaded, is_whole}
use xluci.Uci.Access.ReadWrite.{plain_ne}
use xluci.Uci.Sections.{Item, wanted, entry, base_items, created_items, insert, sort, number}
use xluci.Uci.Save.Sets.{Distinct}

-- An option of a created section, where the section is there.
unfoldable pub opt_at : Dict (Dict Section) → String → String → String → Option (Option Value)
opt_at n c s o = elim (lookup2 c s n) [ none ↦ none | some x ↦ some (lookup o x.options) ]

pub field-plain : (x : Section) (o : String) → is_meta o ≡ false → field x o ≡ lookup o x.options
unfolding field is_meta
field-plain x o plain = ground (
  arith,
  eq_iff o ".type",
  eq_iff o ".name",
  eq_iff o ".create",
  eq_iff o ".anonymous",
  eq_iff o ".index",
  plain_ne o ".type" plain refl,
  plain_ne o ".name" plain refl,
  plain_ne o ".create" plain refl,
  plain_ne o ".anonymous" plain refl,
  plain_ne o ".index" plain refl,
)

-- Created sections with the same option let `get` return the same.
pub get_option-creates :
    (st : State) (n : Dict (Dict Section)) (c s o : String)
    → is_meta o ≡ false
    → opt_at n c s o ≡ opt_at st.creates c s o
    → get_option (record st { creates = n }) c s o ≡ get_option st c s o
unfolding get_option opt_at base_option changed loaded
get_option-creates st n c s o plain e = elim (Option-cases (lookup2 c s n)) [
  | inl a ↦ elim (Option-cases (lookup2 c s st.creates)) [
    | inl b ↦ ground (arith, a, b)
    | inr (y, b) ↦ absurd (ground (arith, a, b, e))
  ]
  | inr (x, a) ↦ elim (Option-cases (lookup2 c s st.creates)) [
    | inl b ↦ absurd (ground (arith, a, b, e))
    | inr (y, b) ↦ ground (arith, a, b, e, field-plain x o plain, field-plain y o plain)
  ]
]

module _ (conf o : String) where
  -- An item that is a created section has the option that is stored for it.
  abbrev pub Own : Dict (Dict Section) → Item → Type 0
  Own n x = elim x.origin [
    | none ↦ Unit
    | some sid ↦ opt_at n conf sid o ≡ some (lookup o x.sec.options)
  ]

  insert-All :
      (P : Item → Type 0) (x : Item) (xs : List Item) → P x → All P xs → All P (insert x xs)
  unfolding insert
  insert-All P x [] p h = (p, tt)
  insert-All P x (y ∷ ys) p h = elim (Bool-cases (leb x.sec.index y.sec.index)) [
    | inl e ↦ rw e (p, h)
    | inr e ↦ rw e (h.0, insert-All P x ys p h.1)
  ]

  pub sort-All : (P : Item → Type 0) (xs : List Item) → All P xs → All P (sort xs)
  unfolding sort
  sort-All P [] h = tt
  sort-All P (x ∷ xs) h = insert-All P x (sort xs) h.0 (sort-All P xs h.1)

  pub number-Own :
      (n : Dict (Dict Section)) (i : ℕ) (xs : List Item)
      → All (Own n) xs
      → All (Own n) (number i xs)
  unfolding number
  number-Own n i [] h = tt
  number-Own n i (x ∷ xs) h = (h.0, number-Own n (suc i) xs h.1)

  pub base_items-Own :
      (n : Dict (Dict Section)) (d : Option (Dict Deletion)) (ch : Option (Dict (Dict Value)))
      (type : Option String) (v : Dict Section)
      → All (Own n) (base_items d ch type v)
  unfolding base_items
  base_items-Own n d ch type [] = tt
  base_items-Own n d ch type ((sid, s) ∷ v) = elim (Bool-cases (is_whole (entry d sid))) [
    | inl e ↦ rw (e, base_items) (base_items-Own n d ch type v)
    | inr e ↦ elim (Bool-cases (wanted type s)) [
      | inl w ↦ rw (e, w, base_items) (tt, base_items-Own n d ch type v)
      | inr w ↦ rw (e, w, base_items) (base_items-Own n d ch type v)
    ]
  ]

  pub created_items-Own :
      (n : Dict (Dict Section)) (type : Option String) (m : Dict Section)
      → All (λ e. lookup2 conf e.0 n ≡ some e.1) m
      → All (Own n) (created_items type m)
  unfolding created_items opt_at
  created_items-Own n type [] h = tt
  created_items-Own n type ((sid, s) ∷ m) h = elim (Bool-cases (wanted type s)) [
    | inl w ↦ rw (w, created_items) (ground (arith, h.0), created_items-Own n type m h.1)
    | inr w ↦ rw (w, created_items) (created_items-Own n type m h.1)
  ]

entries-step :
    (k : String) (v : Section) (d m : Dict Section)
    → lookup k d ≡ none
    → All (λ e. lookup e.0 d ≡ some e.1) m
    → All (λ e. lookup e.0 ((k, v) ∷ d) ≡ some e.1) m
unfolding lookup
entries-step k v d [] free h = tt
entries-step k v d ((j, w) ∷ m) free h =
    (ground (arith, eq_iff k j, free, h.0), entries-step k v d m free h.1)

-- Where the keys are distinct, each entry is what is found at its key.
pub entries-lookup : (m : Dict Section) → Distinct m → All (λ e. lookup e.0 m ≡ some e.1) m
unfolding lookup
entries-lookup [] h = tt
entries-lookup ((k, v) ∷ d) h =
    (ground (arith, eq_iff k k), entries-step k v d d h.0 (entries-lookup d h.1))
