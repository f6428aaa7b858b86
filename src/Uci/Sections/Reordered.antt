-- ===== src/Uci/Sections/Reordered.antt =====
-- A call of `sections` that numbers a created section anew moves it in the calls after it.
use xluci.Prelude.{
  ◌≤◌, ◌≢◌, String, none, some, List, [], ◌∷◌, map, ◌≡◌, arith, leb, eq_iff, if◌then◌else◌,
}
use xluci.Prelude.Dict.{lookup, put, lookup-put2}
use xluci.Uci.Store.{Section, State}
use xluci.Uci.Sections.{
  gather, base_items, created_items, entry, wanted, extended, insert, sort, number, or_empty,
  sections, write_back,
}
use xluci.Uci.Access.{is_whole}

abbrev pub names : List Section → List String
names = map (λ s. s.name)

-- One loaded section, with no changes, and one created section.
pub record Two (st : State) (conf a b : String) (s t : Section) : Type 0 where
  pub loaded : lookup conf st.values ≡ some ((a, s) ∷ [])
  pub created : lookup conf st.creates ≡ some ((b, t) ∷ [])
  pub unchanged : lookup conf st.changes ≡ none
  pub undeleted : lookup conf st.deletes ≡ none

module _ (st : State) (conf a b : String) (s t : Section) (two : Two st conf a b s t) where
  names-sections :
      names (sections st conf none).0
      ≡ (if leb s.index t.index then s.name ∷ t.name ∷ [] else t.name ∷ s.name ∷ [])
  unfolding sections gather base_items created_items entry wanted extended insert sort number
      or_empty is_whole
  names-sections = ground (arith, two.loaded, two.created, two.unchanged, two.undeleted)

  after_sections :
      t.type ≢ ""
      → s.type ≢ t.type
      → Two (sections st conf (some t.type)).1 conf a b s (record t { index = 0 })
  unfolding sections gather base_items created_items entry wanted extended insert sort number
      or_empty is_whole write_back put
  after_sections named other = ground (
    arith,
    two.loaded,
    two.created,
    two.unchanged,
    two.undeleted,
    eq_iff b b,
    eq_iff t.type "",
    eq_iff t.type t.type,
    eq_iff s.type t.type,
    lookup-put2 conf b (record t { index = 0 }) st.creates two.created,
  )

-- The package has one loaded section and one created section of another type, whose index is not
-- smaller. `sections(conf)` lists the created one behind the loaded one; after a call of `sections`
-- for the type of the created one, which numbers it 0, `sections(conf)` lists it first, if the loaded
-- one has not the index 0.
pub sections-reordered :
    (st : State) (conf a b : String) (s t : Section)
    → Two st conf a b s t
    → t.type ≢ ""
    → s.type ≢ t.type
    → 1 ≤ s.index
    → s.index ≤ t.index
    → (names (sections st conf none).0 ≡ s.name ∷ t.name ∷ [])
      × (names (sections (sections st conf (some t.type)).1 conf none).0 ≡ t.name ∷ s.name ∷ [])
sections-reordered st conf a b s t two named other pos le = (
  ground (arith, names-sections st conf a b s t two),
  ground (
    arith,
    names-sections _ conf a b s (record t { index = 0 })
        (after_sections st conf a b s t two named other),
  ),
)
