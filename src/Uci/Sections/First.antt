-- ===== src/Uci/Sections/First.antt =====
-- Which section `get_first` and `set_first` work on.
use xluci.Prelude.{String, Option, none, some, List, [], ◌∷◌, ◌≡◌, refl, ap}
use xluci.Uci.Store.{Value, Section, State}
use xluci.Uci.Access.{get, set}
use xluci.Uci.Sections.{sections, visit, keep_first, first_sid, get_first, set_first}

-- The name of the section at place 0.
unfoldable pub first_name : List Section → Option String
first_name [] = none
first_name (s ∷ rest) = some s.name

visit-keep_first : (l : List Section) (sid : String) → visit keep_first l (some sid) ≡ some sid
unfolding visit keep_first
visit-keep_first [] sid = refl
visit-keep_first (s ∷ rest) sid = visit-keep_first rest sid

visit-first_name : (l : List Section) → visit keep_first l none ≡ first_name l
unfolding visit keep_first first_name
visit-first_name [] = refl
visit-first_name (s ∷ rest) = visit-keep_first rest s.name

-- `get_first` reads and `set_first` writes the option of the section that `sections` returns at place
-- 0, or none where it returns no section; both leave the created sections numbered anew.
pub get_first_lem :
    (st : State) (conf : String) (type opt : Option String) (val : Option Value)
    → (get_first st conf type opt ≡ (
      get (sections st conf type).1 conf (first_name (sections st conf type).0) opt,
      (sections st conf type).1,
    ))
      × (set_first st conf type opt val
          ≡ set (sections st conf type).1 conf (first_name (sections st conf type).0) opt val)
unfolding get_first set_first first_sid
get_first_lem st conf type opt val =
    let e = visit-first_name (sections st conf type).0 in
    (
      ap (λ sid. (get (sections st conf type).1 conf sid opt, (sections st conf type).1)) e,
      ap (λ sid. set (sections st conf type).1 conf sid opt val) e,
    )
