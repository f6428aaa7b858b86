-- ===== src/Address.antt =====
-- `parseIPv4`, `parseIPv6` and `isNetmask` of luci2.js.
pub mod V4
pub mod V6
pub mod Groups
pub mod Netmask
use xluci.Prelude.{
  ℕ, zero, suc, ◌+◌, ◌-◌, ◌/◌, ◌%◌, Bool, true, false, not, ◌&&◌, ◌||◌, Option, none, some, List,
  [], ◌∷◌, ◌++◌, leb, ltb, ◌==◌, if◌then◌else◌, length, replicate, all_b,
}
use xluci.Text.{Text, is_digit, is_hex, digits_value}
use xluci.Text.Split.{split, onto_first}

-- \d{1,3}
unfoldable pub is_octet_text : Text → Bool
unfolding is_digit
is_octet_text s = ltb 0 (length s) && (leb (length s) 3 && all_b is_digit s)

-- ^\d{1,3}\.\d{1,3}\.\d{1,3}\.\d{1,3}$
unfoldable pub matches_ipv4 : Text → Bool
unfolding is_octet_text split
matches_ipv4 s = let parts = split b'.' s in length parts == 4 && all_b is_octet_text parts

-- The loop over the parts.
unfoldable pub octets : List Text → Option (List ℕ)
unfolding digits_value
octets [] = some []
octets (part ∷ parts) =
    let n = digits_value 10 0 part in
    let rest = octets parts in
    if ltb 255 n then none else elim rest [ none ↦ none | some num ↦ some (n ∷ num) ]

-- parseIPv4(str)
unfoldable pub parse_ipv4 : Text → Option (List ℕ)
unfolding matches_ipv4 octets
parse_ipv4 str = if not (matches_ipv4 str) then none else octets (split b'.' str)

-- [a-fA-F0-9:]
unfoldable pub is_group_char : ℕ → Bool
unfolding is_hex
is_group_char c = is_hex c || c == b':'

-- [a-fA-F0-9:]+\d{1,3}, where a dotted tail follows: what is in front of the last digit is matched by
-- the first part.
unfoldable pub ends_in_digit : Text → Bool
unfolding is_digit
ends_in_digit [] = false
ends_in_digit (c ∷ []) = false
ends_in_digit (c ∷ d ∷ []) = is_digit d
ends_in_digit (c ∷ d ∷ e ∷ s) = ends_in_digit (d ∷ e ∷ s)

-- ^[a-fA-F0-9:]+(\d{1,3}\.\d{1,3}\.\d{1,3}\.\d{1,3})?$
unfoldable pub matches_ipv6 : Text → Bool
matches_ipv6 s = elim (split b'.' s) [
  | [] ↦ false
  | head ∷ tail ↦
      (ltb 0 (length head) && all_b is_group_char head)
      && (length tail == 0
          || (ends_in_digit head && (length tail == 3 && all_b is_octet_text tail)))
]

-- str.split(/::/)
unfoldable pub split_gap : Text → List Text
unfolding onto_first
split_gap [] = [] ∷ []
split_gap (c ∷ []) = (c ∷ []) ∷ []
split_gap (c ∷ d ∷ s) =
    let gap = [] ∷ split_gap s in
    let other = onto_first c (split_gap (d ∷ s)) in if c == b':' && d == b':' then gap else other

-- The hexadecimal digits in front.
unfoldable pub hex_prefix : Text → Text
unfolding is_hex
hex_prefix [] = []
hex_prefix (c ∷ s) = let rest = hex_prefix s in if is_hex c then c ∷ rest else []

-- parseInt(str, 16), on a text that does not begin with a sign, a space or 0x
unfoldable pub parse_hex : Text → Option ℕ
unfolding hex_prefix digits_value
parse_hex s = elim (hex_prefix s) [ [] ↦ none | d ∷ digits ↦ some (digits_value 16 0 (d ∷ digits)) ]

-- The loop over the groups in front of `::`: two numbers for each. (n / 256) >> 0 is the quotient for
-- n below 2 ^ 39, that is, for groups of up to nine digits.
unfoldable pub left_groups : List Text → Option (List ℕ)
left_groups [] = some []
left_groups (g ∷ groups) =
    let rest = left_groups groups in
    elim (parse_hex g) [
      | none ↦ none
      | some n ↦ elim rest [ none ↦ none | some num ↦ some (n / 256 ∷ n % 256 ∷ num) ]
    ]

-- right[i].indexOf('.') > 0
unfoldable pub dotted : Text → Bool
dotted [] = false
dotted (c ∷ s) = not (all_b (λ d. not (d == b'.')) s) && not (c == b'.')

-- The numbers of one group behind `::`: two, or the four of an IPv4 address.
unfoldable pub right_group : Text → Option (List ℕ)
right_group g =
    if dotted g
    then parse_ipv4 g
    else elim (parse_hex g) [ none ↦ none | some n ↦ some (n / 256 ∷ n % 256 ∷ []) ]

unfoldable pub right_groups : List Text → Option (List ℕ)
right_groups [] = some []
right_groups (g ∷ groups) =
    let rest = right_groups groups in
    elim (right_group g) [
      | none ↦ none
      | some r ↦ elim rest [ none ↦ none | some num ↦ some (r ++ num) ]
    ]

-- The part before or behind `::`, which may be empty.
unfoldable pub side : (List Text → Option (List ℕ)) → Text → Option (List ℕ)
side groups [] = some []
side groups (c ∷ s) = groups (split b':' (c ∷ s))

-- The numbers of the two sides put together, with zeros between.
unfoldable pub fill : List ℕ → List ℕ → Option (List ℕ)
fill lnum rnum =
    if ltb 0 (length rnum) && ltb 15 (length lnum + length rnum)
    then none
    else let num = lnum ++ (replicate (16 - length lnum - length rnum) 0 ++ rnum) in
      if ltb 16 (length num) then none else some num

unfoldable pub both_sides : Text → Text → Option (List ℕ)
both_sides left right = elim (side left_groups left) [
  | none ↦ none
  | some lnum ↦ elim (side right_groups right) [ none ↦ none | some rnum ↦ fill lnum rnum ]
]

unfoldable pub from_parts : List Text → Option (List ℕ)
from_parts [] = none
from_parts (left ∷ []) = both_sides left []
from_parts (left ∷ right ∷ []) = both_sides left right
from_parts (_ ∷ _ ∷ _ ∷ _) = none

-- parseIPv6(str)
unfoldable pub parse_ipv6 : Text → Option (List ℕ)
parse_ipv6 str = if not (matches_ipv6 str) then none else from_parts (split_gap str)

-- The loops of `isNetmask` over the bytes behind the first that is not 255.
unfoldable pub all_zero : List ℕ → Bool
all_zero [] = true
all_zero (a ∷ addr) = a == 0 && all_zero addr

-- The bytes in which the ones end.
unfoldable pub is_boundary : ℕ → Bool
is_boundary a =
    (a == 254
      || (a == 252 || (a == 248 || (a == 240 || (a == 224 || (a == 192 || (a == 128 || a == 0)))))))

-- isNetmask(addr), for an array
unfoldable pub is_netmask : List ℕ → Bool
unfolding all_zero is_boundary
is_netmask [] = true
is_netmask (a ∷ addr) =
    let rest = is_netmask addr in
    if a == 255 then rest else (if is_boundary a then all_zero addr else false)

-- isNetmask(addr), where `addr` may be undefined
unfoldable pub is_netmask? : Option (List ℕ) → Bool
unfolding is_netmask
is_netmask? none = false
is_netmask? (some addr) = is_netmask addr
