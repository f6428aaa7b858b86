-- ===== src/Validation/Combined.antt =====
-- The validators of cbi.js that combine others: `or`, `and`, `neg` and `list`.
use xluci.Prelude.{
  ℕ, Bool, true, false, ◌||◌, Option, none, some, List, [], ◌∷◌, ◌==◌, all_b, if◌then◌else◌,
}
use xluci.Text.{Text, texts_equal}

-- An argument: a text or a number to be compared with, the latter as the text it was written in, or a
-- validator with its own arguments.
pub data Argument : Type 0 where
  literal : Text → Argument
  number : Text → Argument
  validator : (Text → Bool) → Argument

-- ' ' or '\t'
unfoldable pub is_blank_char : ℕ → Bool
is_blank_char c = c == b' ' || c == 9

-- /^[ \t]*/
unfoldable pub skip_blanks : Text → Text
unfolding is_blank_char
skip_blanks [] = []
skip_blanks (c ∷ s) = let rest = skip_blanks s in if is_blank_char c then rest else c ∷ s

-- this.replace(/^[ \t]*![ \t]*/, '')
unfoldable pub without_mark : Text → Text
unfolding skip_blanks
without_mark s = elim (skip_blanks s) [
  | [] ↦ s
  | c ∷ rest ↦ if c == b'!' then skip_blanks rest else s
]

-- this.match(/[^ \t]+/g), without the `null` for no match
unfoldable pub tokens : Text → List Text
unfolding is_blank_char
tokens [] = []
tokens (c ∷ []) = if is_blank_char c then [] else (c ∷ []) ∷ []
tokens (c ∷ d ∷ s) =
    let rest = tokens (d ∷ s) in
    if is_blank_char c
    then rest
    else if is_blank_char d
    then (c ∷ []) ∷ rest
    else (elim rest [ [] ↦ (c ∷ []) ∷ [] | t ∷ l ↦ (c ∷ t) ∷ l ])

-- `same_number` is the comparison of a text with a number by `==`.
module _ (same_number : Text → Text → Bool) where
  unfoldable pub argument_accepts : Argument → Text → Bool
  argument_accepts (literal t) val = texts_equal t val
  argument_accepts (number n) val = same_number n val
  argument_accepts (validator check) val = check val

  -- or(…)
  unfoldable pub is_or : List Argument → Text → Bool
  unfolding argument_accepts
  is_or [] val = false
  is_or (a ∷ l) val = let rest = is_or l val in if argument_accepts a val then true else rest

  -- and(…)
  unfoldable pub is_and : List Argument → Text → Bool
  unfolding argument_accepts
  is_and [] val = true
  is_and (a ∷ l) val = let rest = is_and l val in if argument_accepts a val then rest else false

  -- neg(…): `or` on the text behind the mark
  unfoldable pub is_neg : List Argument → Text → Bool
  unfolding is_or without_mark
  is_neg l val = is_or l (without_mark val)

  -- list(…): `none` where it throws, at a text without words
  unfoldable pub is_list : List Argument → Text → Option Bool
  unfolding tokens
  is_list (validator check ∷ l) val = elim (tokens val) [
    | [] ↦ none
    | t ∷ words ↦ some (all_b check (t ∷ words))
  ]
  is_list _ val = some false
