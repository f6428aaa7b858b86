-- ===== src/Uci/Sections/Ascending.antt =====
-- What `sections` returns: the gathered sections in the order of their indices, numbered anew.
use mathlib.Core.List.{Perm}
use mathlib.Core.List.Perm
use native.Mathlib.Nat.{zero-add}
use xluci.Prelude.{
  ℕ, zero, suc, ◌+◌, ◌≤◌, String, Option, some, List, [], ◌∷◌, map, ◌≡◌, refl, ◌∙◌, arith, leb, All,
  ap, get_elem?, inl, inr, Bool-cases, leb→le,
}
use xluci.Prelude.Dict.{Dict}
use xluci.Uci.Store.{Value, Section, State}
use xluci.Uci.Sections.{Item, gather, insert, sort, number, sections}

-- Every item has an index of at least `b`.
abbrev pub AtLeast : ℕ → List Item → Type 0
AtLeast b = All (λ x. b ≤ x.sec.index)

abbrev pub Ascending : List Item → Type 0
Ascending [] = Unit
Ascending (x ∷ xs) = AtLeast x.sec.index xs × Ascending xs

AtLeast-weaken : (a b : ℕ) (xs : List Item) → a ≤ b → AtLeast b xs → AtLeast a xs
AtLeast-weaken a b [] h all = tt
AtLeast-weaken a b (x ∷ xs) h all = (omega arith, AtLeast-weaken a b xs h all.1)

AtLeast-insert :
    (b : ℕ) (x : Item) (xs : List Item) → b ≤ x.sec.index → AtLeast b xs → AtLeast b (insert x xs)
unfolding insert
AtLeast-insert b x [] h all = (h, tt)
AtLeast-insert b x (y ∷ ys) h all = elim (Bool-cases (leb x.sec.index y.sec.index)) [
  | inl le ↦ rw le (h, all)
  | inr gt ↦ rw gt (all.0, AtLeast-insert b x ys h all.1)
]

insert-Ascending : (x : Item) (xs : List Item) → Ascending xs → Ascending (insert x xs)
unfolding insert
insert-Ascending x [] asc = (tt, tt)
insert-Ascending x (y ∷ ys) asc = elim (Bool-cases (leb x.sec.index y.sec.index)) [
  | inl le ↦
      let h = leb→le x.sec.index y.sec.index le in
      rw le ((h, AtLeast-weaken x.sec.index y.sec.index ys h asc.0), asc)
  | inr gt ↦
      rw gt
        (AtLeast-insert y.sec.index x ys (ground (arith, gt)) asc.0, insert-Ascending x ys asc.1)
]

pub sort-Ascending : (xs : List Item) → Ascending (sort xs)
unfolding sort
sort-Ascending [] = tt
sort-Ascending (x ∷ xs) = insert-Ascending x (sort xs) (sort-Ascending xs)

insert-perm : (x : Item) (xs : List Item) → Perm (insert x xs) (x ∷ xs)
unfolding insert
insert-perm x [] = Perm.refl (x ∷ [])
insert-perm x (y ∷ ys) = elim (Bool-cases (leb x.sec.index y.sec.index)) [
  | inl le ↦ rw le (Perm.refl (x ∷ y ∷ ys))
  | inr gt ↦ rw gt (Perm.trans (Perm.cons y (insert-perm x ys)) (Perm.swap x y ys))
]

pub sort-perm : (xs : List Item) → Perm (sort xs) xs
unfolding sort
sort-perm [] = Perm.refl []
sort-perm (x ∷ xs) = Perm.trans (insert-perm x (sort xs)) (Perm.cons x (sort-perm xs))

-- What the numbering leaves alone of a section.
abbrev pub content : Section → String × String × Dict Value
content s = (s.name, s.type, s.options)

content-number :
    (i : ℕ) (xs : List Item)
    → map content (map (λ x. x.sec) (number i xs)) ≡ map (λ x. content x.sec) xs
unfolding number
content-number i [] = refl
content-number i (x ∷ xs) = ap (◌∷◌ (content x.sec)) (content-number (suc i) xs)

index-number :
    (i k : ℕ) (xs : List Item) (s : Section)
    → get_elem? (map (λ x. x.sec) (number i xs)) k ≡ some s
    → s.index ≡ i + k
unfolding number
index-number i k [] s h = cc
index-number i zero (x ∷ xs) s h = ground (arith, h)
index-number i (suc k) (x ∷ xs) s h = omega (arith, index-number (suc i) k xs s h)

-- `sections(conf, type)` returns the names, types and options of the gathered sections, each once, in
-- ascending order of the indices that the sections had; the section at place `k` has the index `k`.
pub sections-Ascending :
    (st : State) (conf : String) (type : Option String)
    → (xs : List Item) × Perm xs (gather st conf type)
      × Ascending xs
      × (map content (sections st conf type).0 ≡ map (λ x. content x.sec) xs)
      × ((k : ℕ) (s : Section) → get_elem? (sections st conf type).0 k ≡ some s → s.index ≡ k)
unfolding sections
sections-Ascending st conf type =
    let items = sort (gather st conf type) in
    (
      items,
      sort-perm (gather st conf type),
      sort-Ascending (gather st conf type),
      content-number 0 items,
      λ k s h. index-number 0 k items s h ∙ zero-add k,
    )
