-- ===== src/Validation/Numbers.antt =====
-- The validators of numbers and lengths of cbi.js.
use xluci.Prelude.{
  ℕ, Bool, true, false, ◌&&◌, Option, none, some, [], ◌∷◌, leb, ltb, ◌==◌, if◌then◌else◌, length,
  all_b,
}
use xluci.Text.{Text, is_digit, digits_value}
use xluci.Text.Split.{split}

-- The value of a text of digits with or without a minus sign in front: its size and its sign.
pub record Signed : Type 0 where
  pub negative : Bool
  pub size : ℕ

-- [0-9]+
unfoldable pub is_digits : Text → Bool
unfolding is_digit
is_digits s = ltb 0 (length s) && all_b is_digit s

-- /^-?[0-9]+$/
unfoldable pub is_integer : Text → Bool
unfolding is_digits
is_integer [] = false
is_integer (c ∷ s) = if c == b'-' then is_digits s else is_digits (c ∷ s)

-- The number that such a text converts to.
unfoldable pub signed_value : Text → Signed
unfolding digits_value
signed_value [] = record { negative = false; size = 0 }
signed_value (c ∷ s) =
    if c == b'-'
    then record { negative = true; size = digits_value 10 0 s }
    else record { negative = false; size = digits_value 10 0 (c ∷ s) }

-- a <= b
unfoldable pub le_signed : Signed → Signed → Bool
le_signed a b =
    if a.negative
    then (if b.negative then leb b.size a.size else true)
    else (if b.negative then a.size == 0 && b.size == 0 else leb a.size b.size)

abbrev pub natural : ℕ → Signed
natural n = record { negative = false; size = n }

unfoldable pub is_uinteger : Text → Bool
unfolding is_integer signed_value le_signed
is_uinteger s = is_integer s && le_signed (natural 0) (signed_value s)

unfoldable pub is_port : Text → Bool
unfolding is_integer signed_value le_signed
is_port s =
    is_integer s
    && (le_signed (natural 0) (signed_value s) && le_signed (signed_value s) (natural 65535))

-- /^(\d+)-(\d+)$/: the two numbers
unfoldable pub match_range : Text → Option (Text × Text)
unfolding is_digits split
match_range s = elim (split b'-' s) [
  | [] ↦ none
  | p1 ∷ rest ↦ elim rest [
    | [] ↦ none
    | p2 ∷ more ↦ if is_digits p1 && (is_digits p2 && length more == 0) then some (p1, p2) else none
  ]
]

unfoldable pub is_portrange : Text → Bool
unfolding match_range is_port digits_value
is_portrange s = elim (match_range s) [
  | some (p1, p2) ↦ is_port p1 && (is_port p2 && leb (digits_value 10 0 p1) (digits_value 10 0 p2))
  | none ↦ is_port s
]

-- range(min, max), for bounds that are whole numbers; so for `min` and `max`
unfoldable pub in_range : Signed → Signed → Text → Bool
unfolding is_integer signed_value le_signed
in_range min max s =
    is_integer s && (le_signed min (signed_value s) && le_signed (signed_value s) max)

unfoldable pub at_least : Signed → Text → Bool
unfolding is_integer signed_value le_signed
at_least min s = is_integer s && le_signed min (signed_value s)

unfoldable pub at_most : Signed → Text → Bool
unfolding is_integer signed_value le_signed
at_most max s = is_integer s && le_signed (signed_value s) max

unfoldable pub rangelength : ℕ → ℕ → Text → Bool
rangelength min max s = leb min (length s) && leb (length s) max

unfoldable pub minlength : ℕ → Text → Bool
minlength min s = leb min (length s)

unfoldable pub maxlength : ℕ → Text → Bool
maxlength max s = leb (length s) max
