-- ===== src/Text.antt =====
-- Texts as lists of character codes: classes of characters, `split`, and the reading of numbers, as
-- luci2.js and cbi.js use them on texts that a user typed.
pub mod Split
use Prim.Native.Char.{code}
use Prim.Native.String.{String}
use xluci.Prelude.{
  ℕ, ◌+◌, ◌-◌, ◌*◌, Bool, true, false, ◌&&◌, ◌||◌, List, [], ◌∷◌, ◌++◌, leb, ◌==◌, if◌then◌else◌,
  length,
}

abbrev pub Text : Type 0
Text = List ℕ

-- The character codes of a text literal.
abbrev pub codes : String → Text
codes String.[] = []
codes (String.◌∷◌ c s) = code c ∷ codes s

-- \d
unfoldable pub is_digit : ℕ → Bool
is_digit c = leb b'0' c && leb c b'9'

-- [a-zA-Z]
unfoldable pub is_letter : ℕ → Bool
is_letter c = (leb b'a' c && leb c b'z') || (leb b'A' c && leb c b'Z')

-- [a-fA-F0-9]
unfoldable pub is_hex : ℕ → Bool
unfolding is_digit
is_hex c = is_digit c || ((leb b'a' c && leb c b'f') || (leb b'A' c && leb c b'F'))

-- The value of a digit of a number in base 10 or 16.
unfoldable pub digit : ℕ → ℕ
unfolding is_digit
digit c = if is_digit c then c - b'0' else if leb b'a' c then c - b'a' + 10 else c - b'A' + 10

-- The value of digits, the first one the highest, behind `acc`.
unfoldable pub digits_value : ℕ → ℕ → Text → ℕ
unfolding digit
digits_value base acc [] = acc
digits_value base acc (c ∷ s) = digits_value base (acc * base + digit c) s

unfoldable pub texts_equal : Text → Text → Bool
texts_equal [] [] = true
texts_equal (x ∷ s) (y ∷ t) = x == y && texts_equal s t
texts_equal _ _ = false
