-- ===== src/Cbi/Js.antt =====
-- Conversions of JavaScript that the forms of cbi.js use: texts, truth, `==`.
use Prim.Native.String.{◌++◌ as append}
use text.Mathlib.Text.{◌==◌ as str_eq}
use xluci.Prelude.{
  ℕ, String, Bool, true, false, not, Option, none, some, List, [], ◌∷◌, ◌==◌, if◌then◌else◌,
}
use xluci.Uci.Store.{Value, str, list, num, flag}
use xluci.Convert.{split_space, nonempty}

-- l.join(glue)
unfoldable pub join : String → List String → String
join glue [] = ""
join glue (s ∷ []) = s
join glue (s ∷ t ∷ l) = append s (append glue (join glue (t ∷ l)))

-- How JavaScript converts between numbers and texts: `Number(text)`, where this is a natural number,
-- and the text of a number.
pub record Js : Type 0 where
  pub number_of : String → Option ℕ
  pub text_of : ℕ → String

-- v.toString()
unfoldable pub to_string : Js → Value → String
unfolding join
to_string js (str s) = s
to_string js (list l) = join "," l
to_string js (num n) = js.text_of n
to_string js (flag b) = if b then "true" else "false"

-- The number that `==` makes of a value.
unfoldable pub as_number : Js → Value → Option ℕ
unfolding to_string
as_number js (num n) = some n
as_number js (flag b) = some (if b then 1 else 0)
as_number js v = js.number_of (to_string js v)

unfoldable pub numbers_equal : Option ℕ → Option ℕ → Bool
numbers_equal (some m) (some n) = m == n
numbers_equal _ _ = false

-- a == b, for values that are not undefined; two arrays are different objects
unfoldable pub loosely : Js → Value → Value → Bool
unfolding as_number numbers_equal
loosely js (str s) (str t) = str_eq s t
loosely js (str s) (list l) = str_eq s (join "," l)
loosely js (list l) (str s) = str_eq (join "," l) s
loosely js (list l) (list m) = false
loosely js v w = numbers_equal (as_number js v) (as_number js w)

-- a == b
unfoldable pub loosely_equal : Js → Option Value → Option Value → Bool
unfolding loosely
loosely_equal js none none = true
loosely_equal js none (some w) = false
loosely_equal js (some v) none = false
loosely_equal js (some v) (some w) = loosely js v w

-- !!v
unfoldable pub is_true : Option Value → Bool
is_true none = false
is_true (some (str s)) = not (str_eq s "")
is_true (some (list l)) = true
is_true (some (num n)) = not (n == 0)
is_true (some (flag b)) = b

-- Behind the first part of `s.split(/\s+/)`: the empty parts between two spaces are none.
unfoldable pub inner_parts : List String → List String
inner_parts [] = []
inner_parts (y ∷ []) = y ∷ []
inner_parts (y ∷ z ∷ l) = let rest = inner_parts (z ∷ l) in if str_eq y "" then rest else y ∷ rest

-- s.split(/\s+/)
unfoldable pub split_spaces : String → List String
unfolding inner_parts split_space
split_spaces s = elim (split_space s) [ [] ↦ [] | x ∷ l ↦ x ∷ inner_parts l ]

unfoldable pub first : List String → Option Value
first [] = none
first (x ∷ l) = some (str x)

-- v.match(/\S+/g), or v.match(/\S+/) with its first element
unfoldable pub words : String → List String
unfolding split_space nonempty
words s = nonempty (split_space s)
