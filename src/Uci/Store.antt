-- ===== src/Uci/Store.antt =====
-- The data that `L.uci.state` holds (uci.js, `init`): the sections as they were loaded, and what was
-- created, changed and deleted since, each by package and section.
use Prim.Native.Char.{code}
use text.Mathlib.Text.{◌==◌ as str_eq}
use xluci.Prelude.{ℕ, String, Bool, false, Option, none, some, List, [], ◌∷◌, ◌==◌, if◌then◌else◌}
use xluci.Prelude.Dict.{Dict, lookup, put, remove}

-- What an option holds: a text, or the list of a list option; the attributes of a section are
-- numbers and booleans too.
pub data Value : Type 0 where
  str : String → Value
  list : List String → Value
  num : ℕ → Value
  flag : Bool → Value

-- A section object. Its attributes are the keys with a dot, `.type` to `.index`; `.create` is there
-- on a section that `add` made with a name.
pub record Section : Type 0 where
  pub type : String
  pub name : String
  pub create : Option String
  pub anonymous : Bool
  pub index : ℕ
  pub options : Dict Value

-- An entry of `deletes`: the whole section (`true`), or the options of it.
pub data Deletion : Type 0 where
  whole : Deletion
  opts : List String → Deletion

pub record State : Type 0 where
  pub newidx : ℕ
  pub values : Dict (Dict Section)
  pub creates : Dict (Dict Section)
  pub changes : Dict (Dict (Dict Value))
  pub deletes : Dict (Dict Deletion)
  pub reorder : Dict (Unit {0})

unfoldable pub init : State
init = record { newidx = 0; values = []; creates = []; changes = []; deletes = []; reorder = [] }

-- opt.charAt(0) == '.'
unfoldable pub is_meta : String → Bool
is_meta String.[] = false
is_meta (String.◌∷◌ c s) = code c == b'.'

-- s[key], for a section object `s`
unfoldable pub field : Section → String → Option Value
field s key =
    if str_eq key ".type"
    then some (str s.type)
    else if str_eq key ".name"
    then some (str s.name)
    else if str_eq key ".create"
    then elim s.create [ none ↦ none | some n ↦ some (str n) ]
    else if str_eq key ".anonymous"
    then some (flag s.anonymous)
    else if str_eq key ".index"
    then some (num s.index)
    else lookup key s.options

-- s[opt] = val, or delete s[opt] where `val` is undefined; `opt` is no attribute
unfoldable pub assign : Section → String → Option Value → Section
assign s opt none = record s { options = remove opt s.options }
assign s opt (some v) = record s { options = put opt v s.options }

-- L.filterArray(array, item) (luci2.js): the array without the item
unfoldable pub filter_array : List String → String → List String
filter_array [] item = []
filter_array (x ∷ array) item =
    let rest = filter_array array item in if str_eq x item then rest else x ∷ rest
