-- ===== src/Address/V6.antt =====
-- What `parseIPv6` returns.
use xluci.Prelude.{
  ℕ, ◌-◌, some, List, [], ◌∷◌, ◌++◌, ◌≡◌, arith, length, replicate, length-append, length-replicate,
  Option-cases, inl, inr,
}
use xluci.Text.{Text}
use xluci.Address.{
  split_gap, left_groups, right_groups, side, fill, both_sides, from_parts, parse_ipv6,
}

fill-length : (l r num : List ℕ) → fill l r ≡ some num → length num ≡ 16
unfolding fill
fill-length l r num h = ground (
  arith,
  h,
  length-append l (replicate (16 - length l - length r) 0 ++ r),
  length-append (replicate (16 - length l - length r) 0) r,
  length-replicate {A = ℕ} (16 - length l - length r) 0,
)

both_sides-length : (l r : Text) (num : List ℕ) → both_sides l r ≡ some num → length num ≡ 16
unfolding both_sides
both_sides-length l r num h = elim (Option-cases (side left_groups l)) [
  | inl e ↦ absurd (ground (arith, h, e))
  | inr (lnum, e) ↦ elim (Option-cases (side right_groups r)) [
    | inl e' ↦ absurd (ground (arith, h, e, e'))
    | inr (rnum, e') ↦ fill-length lnum rnum num (ground (arith, h, e, e'))
  ]
]

from_parts-length :
    (parts : List Text) (num : List ℕ) → from_parts parts ≡ some num → length num ≡ 16
unfolding from_parts
from_parts-length [] num h = absurd (ground (arith, h))
from_parts-length (l ∷ []) num h = both_sides-length l [] num h
from_parts-length (l ∷ r ∷ []) num h = both_sides-length l r num h
from_parts-length (_ ∷ _ ∷ _ ∷ _) num h = absurd (ground (arith, h))

-- An address that `parseIPv6` accepts comes back as 16 numbers, however many groups it was written
-- with.
pub parse_ipv6-length : (s : Text) (num : List ℕ) → parse_ipv6 s ≡ some num → length num ≡ 16
unfolding parse_ipv6
parse_ipv6-length s num h = from_parts-length (split_gap s) num (ground (arith, h))
