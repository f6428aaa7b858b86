-- ===== src/Color.antt =====
-- `toClassName` and `toColor` of luci2.js.
pub mod Bounded
use xluci.Prelude.{
  ℕ, ◌+◌, ◌-◌, ◌*◌, ◌/◌, ◌%◌, ◌^◌, Option, none, some, List, [], ◌∷◌, ◌++◌, ◌==◌, ltb,
  if◌then◌else◌,
}
use xluci.Text.{Text, codes, texts_equal}

-- str.split(/[\/.]/)
unfoldable pub split_name : Text → List Text
split_name [] = [] ∷ []
split_name (c ∷ s) =
    let parts = split_name s in
    if c == b'/'
    then [] ∷ parts
    else if c == b'.'
    then [] ∷ parts
    else (elim parts [ [] ↦ (c ∷ []) ∷ [] | p ∷ l ↦ (c ∷ p) ∷ l ])

-- `upper` and `lower` are toUpperCase and toLowerCase.
module _ (upper lower : Text → Text) where
  unfoldable pub capitals : List Text → Text
  capitals [] = []
  capitals ([] ∷ l) = capitals l
  capitals ((c ∷ s) ∷ l) = upper (c ∷ []) ++ (lower s ++ capitals l)

  -- toClassName(str, suffix)
  unfoldable pub to_class_name : Text → Option Text → Text
  unfolding split_name capitals
  to_class_name str suffix = capitals (split_name str) ++ (elim suffix [ none ↦ [] | some t ↦ t ])

-- The loop of `toColor`: the low 32 bits of `hash`, which are all that the bit operations read.
unfoldable pub hash : ℕ → Text → ℕ
hash h [] = h
hash h (c ∷ s) = hash ((c + h * 31) % 2 ^ 32) s

-- Three bytes of red, green and blue.
pub record Color : Type 0 where
  pub red : ℕ
  pub green : ℕ
  pub blue : ℕ

-- min + (… % (max - min)), of the third byte; a remainder by 0 is no number
unfoldable pub blue_part : ℕ → ℕ → Option ℕ
blue_part sum byte =
    if ltb sum 128
    then (if sum == 0 then none else some (128 - sum + byte % sum))
    else some (byte % (255 - sum))

-- The part of `toColor` that draws a color from the hash; `none` where the blue is no number.
unfoldable pub color_of : ℕ → Option Color
unfolding blue_part
color_of h =
    let r = (h % 256) % 128 in
    let g = (h / 256 % 256) % 128 in
    elim (blue_part (r + g) (h / 65536 % 256)) [
      | none ↦ none
      | some b ↦ some (record { red = 255 - r; green = 255 - g; blue = 255 - b })
    ]

-- toColor(str)
unfoldable pub to_color : Text → Option Color
unfolding hash color_of
to_color [] = some (record { red = 0xcc; green = 0xcc; blue = 0xcc })
to_color (c ∷ s) =
    let drawn = color_of (hash 0 (c ∷ s)) in
    if texts_equal (c ∷ s) (codes "wan")
    then some (record { red = 0xf0; green = 0x90; blue = 0x90 })
    else if texts_equal (c ∷ s) (codes "lan")
    then some (record { red = 0x90; green = 0xf0; blue = 0x90 })
    else drawn
