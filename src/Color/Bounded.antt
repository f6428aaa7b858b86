-- ===== src/Color/Bounded.antt =====
-- The bytes of a color.
use native.Mathlib.Nat.{mod-lt}
use xluci.Prelude.{
  ℕ, ◌+◌, ◌-◌, ◌<◌, ◌≤◌, ◌%◌, ◌==◌, some, ◌≡◌, arith, ltb, ltb→lt, inl, inr, Bool-cases,
}
use xluci.Color.{blue_part}

-- The blue that `toColor` subtracts from 255 is at most 255, for a red and a green below 128: nothing
-- wraps around.
pub blue_part-le : (r g byte b : ℕ) → r < 128 → g < 128 → blue_part (r + g) byte ≡ some b → b ≤ 255
unfolding blue_part
blue_part-le r g byte b hr hg e = elim (Bool-cases (ltb (r + g) 128)) [
  | inl small ↦ elim (Bool-cases ((r + g) == 0)) [
    | inl zero_sum ↦ absurd (ground (arith, e, small, zero_sum))
    | inr positive ↦
        let is : 128 - (r + g) + byte % (r + g) ≡ b = ground (arith, e, small, positive) in
        let more : 0 < r + g = ground (arith, positive) in
        let rest = mod-lt byte {m = r + g} more in
        let lt : r + g < 128 = ltb→lt (r + g) 128 small in omega (arith, is, rest, lt)
  ]
  | inr large ↦
      let is : byte % (255 - (r + g)) ≡ b = ground (arith, e, large) in
      let more : 0 < 255 - (r + g) = omega (arith, hr, hg) in
      let rest = mod-lt byte {m = 255 - (r + g)} more in omega (arith, is, rest)
]
