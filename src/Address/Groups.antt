-- ===== src/Address/Groups.antt =====
-- Addresses without `::`.
use mathlib.Core.List.{append-nil}
use mathlib.Core.Path.{subst, sym}
use xluci.Prelude.{
  ℕ, suc, ◌-◌, ◌*◌, ◌/◌, ◌%◌, ◌≤◌, ◌<◌, Bool, true, false, ◌&&◌, some, List, [], ◌∷◌, ◌++◌, ◌≡◌,
  refl, arith, ltb, leb, ◌==◌, length, All, all_b, all_b-append, replicate, length-append,
  length-replicate,
}
use xluci.Text.{Text, digits_value, is_digit, is_hex}
use xluci.Text.Split.{split, join, free_of, split-join, onto_first, split-free}
use xluci.Address.{
  is_group_char, matches_ipv6, split_gap, hex_prefix, parse_hex, left_groups, side, fill,
  both_sides, from_parts, parse_ipv6,
}

-- A group of one to nine hexadecimal digits.
abbrev pub is_group : Text → Bool
is_group g = ltb 0 (length g) && (leb (length g) 9 && all_b is_hex g)

-- The two numbers of each group.
unfoldable pub group_bytes : List Text → List ℕ
group_bytes [] = []
group_bytes (g ∷ groups) =
    digits_value 16 0 g / 256 ∷ digits_value 16 0 g % 256 ∷ group_bytes groups

hex_prefix-hex : (s : Text) → all_b is_hex s ≡ true → hex_prefix s ≡ s
unfolding hex_prefix
hex_prefix-hex [] h = refl
hex_prefix-hex (c ∷ s) h = ground (arith, hex_prefix-hex s)

parse_hex-group : (g : Text) → is_group g ≡ true → parse_hex g ≡ some (digits_value 16 0 g)
unfolding parse_hex
parse_hex-group [] h = cc
parse_hex-group (c ∷ g) h = ground (arith, hex_prefix-hex (c ∷ g))

left_groups-group_bytes :
    (groups : List Text)
    → All (λ g. is_group g ≡ true) groups
    → left_groups groups ≡ some (group_bytes groups)
unfolding left_groups group_bytes
left_groups-group_bytes [] h = refl
left_groups-group_bytes (g ∷ groups) h =
    ground (arith, parse_hex-group g h.0, left_groups-group_bytes groups h.1)

length-group_bytes : (groups : List Text) → length (group_bytes groups) ≡ 2 * length groups
unfolding group_bytes
length-group_bytes [] = refl
length-group_bytes (g ∷ groups) = omega (arith, length-group_bytes groups)

hex_not_colon : (c : ℕ) → is_hex c ≡ true → (c == b':') ≡ false
unfolding is_hex is_digit
hex_not_colon c h = ground arith

group_char_not_dot : (c : ℕ) → is_group_char c ≡ true → (c == b'.') ≡ false
unfolding is_group_char is_hex is_digit
group_char_not_dot c h = ground arith

hex-free : (s : Text) → all_b is_hex s ≡ true → free_of b':' s ≡ true
hex-free [] h = refl
hex-free (c ∷ s) h = ground (arith, hex_not_colon c, hex-free s)

groups-free :
    (groups : List Text)
    → All (λ g. is_group g ≡ true) groups
    → All (λ g. free_of b':' g ≡ true) groups
groups-free [] h = tt
groups-free (g ∷ groups) h = (hex-free g (ground arith), groups-free groups h.1)

group_chars-free : (s : Text) → all_b is_group_char s ≡ true → free_of b'.' s ≡ true
group_chars-free [] h = refl
group_chars-free (c ∷ s) h = ground (arith, group_char_not_dot c, group_chars-free s)

hex_group_chars : (s : Text) → all_b is_hex s ≡ true → all_b is_group_char s ≡ true
unfolding is_group_char
hex_group_chars [] h = refl
hex_group_chars (c ∷ s) h = ground (arith, hex_group_chars s)

join-group_chars :
    (groups : List Text)
    → All (λ g. is_group g ≡ true) groups
    → all_b is_group_char (join b':' groups) ≡ true
unfolding join is_group_char
join-group_chars [] h = refl
join-group_chars (g ∷ []) h = hex_group_chars g (ground arith)
join-group_chars (g ∷ g' ∷ groups) h =
    all_b-append is_group_char g (b':' ∷ join b':' (g' ∷ groups)) (hex_group_chars g (ground arith))
      (ground (arith, join-group_chars (g' ∷ groups) h.1))

join-cons :
    (c : ℕ) (g : Text) (groups : List Text)
    → join b':' ((c ∷ g) ∷ groups) ≡ c ∷ join b':' (g ∷ groups)
unfolding join
join-cons c g [] = refl
join-cons c g (g' ∷ groups) = refl

split_gap-cons :
    (c : ℕ) (s : Text)
    → (c == b':') ≡ false
    → split_gap s ≡ s ∷ []
    → split_gap (c ∷ s) ≡ (c ∷ s) ∷ []
unfolding split_gap onto_first
split_gap-cons c [] h e = refl
split_gap-cons c (d ∷ s) h e = ground (arith, h, e)

split_gap-append :
    (g s : Text) → all_b is_hex g ≡ true → split_gap s ≡ s ∷ [] → split_gap (g ++ s) ≡ (g ++ s) ∷ []
split_gap-append [] s h e = e
split_gap-append (c ∷ g) s h e =
    split_gap-cons c (g ++ s) (hex_not_colon c (ground arith))
      (split_gap-append g s (ground arith) e)

split_gap-colon :
    (c : ℕ) (s : Text)
    → (c == b':') ≡ false
    → split_gap (c ∷ s) ≡ (c ∷ s) ∷ []
    → split_gap (b':' ∷ c ∷ s) ≡ (b':' ∷ c ∷ s) ∷ []
unfolding split_gap onto_first
split_gap-colon c s h e = ground (arith, h, e)

split_gap-join :
    (groups : List Text)
    → All (λ g. is_group g ≡ true) groups
    → split_gap (join b':' groups) ≡ join b':' groups ∷ []
unfolding join
split_gap-join [] h = unfold split_gap in refl
split_gap-join (g ∷ []) h =
    rw (← append-nil g) (split_gap-append g [] (ground arith) (unfold split_gap in refl))
split_gap-join (g ∷ [] ∷ groups) h = absurd (ground arith)
split_gap-join (g ∷ (c ∷ g') ∷ groups) h =
    split_gap-append g (b':' ∷ join b':' ((c ∷ g') ∷ groups)) (ground arith) (
      rw (join-cons c g' groups) (
        split_gap-colon c (join b':' (g' ∷ groups)) (hex_not_colon c (ground arith))
          (rw (← join-cons c g' groups) (split_gap-join ((c ∷ g') ∷ groups) h.1))))

matches_ipv6-group_chars :
    (c : ℕ) (s : Text) → all_b is_group_char (c ∷ s) ≡ true → matches_ipv6 (c ∷ s) ≡ true
unfolding matches_ipv6
matches_ipv6-group_chars c s h =
    ground (arith, h, split-free b'.' (c ∷ s) (group_chars-free (c ∷ s) h))

fill-left : (l : List ℕ) → length l ≤ 16 → fill l [] ≡ some (l ++ replicate (16 - length l) 0)
unfolding fill
fill-left l h = ground (
  arith,
  h,
  append-nil (replicate {A = ℕ} (16 - length l) 0),
  length-append l (replicate (16 - length l) 0),
  length-replicate {A = ℕ} (16 - length l) 0,
)

both_sides-left :
    (c : ℕ) (s : Text) (num : List ℕ)
    → left_groups (split b':' (c ∷ s)) ≡ some num
    → length num ≤ 16
    → both_sides (c ∷ s) [] ≡ some (num ++ replicate (16 - length num) 0)
unfolding both_sides side
both_sides-left c s num e le = ground (arith, e, fill-left num le)

parse_ipv6-ungapped :
    (c : ℕ) (s : Text) (num : List ℕ)
    → all_b is_group_char (c ∷ s) ≡ true
    → split_gap (c ∷ s) ≡ (c ∷ s) ∷ []
    → left_groups (split b':' (c ∷ s)) ≡ some num
    → length num ≤ 16
    → parse_ipv6 (c ∷ s) ≡ some (num ++ replicate (16 - length num) 0)
unfolding parse_ipv6 from_parts
parse_ipv6-ungapped c s num chars gap e le =
    ground (arith, gap, matches_ipv6-group_chars c s chars, both_sides-left c s num e le)

-- `parseIPv6` accepts any one to eight groups of one to nine hexadecimal digits with colons between: the result
-- is the two numbers of each group and, where there are fewer than eight, zeros behind them.
pub parse_ipv6-join :
    (g : Text) (groups : List Text)
    → All (λ x. is_group x ≡ true) (g ∷ groups)
    → length groups < 8
    → parse_ipv6 (join b':' (g ∷ groups))
      ≡ some (group_bytes (g ∷ groups) ++ replicate (16 - 2 * length (g ∷ groups)) 0)
parse_ipv6-join [] groups h le = absurd (ground arith)
parse_ipv6-join (c ∷ g) groups h le =
    let num = group_bytes ((c ∷ g) ∷ groups) in
    let n : length num ≡ 2 * suc (length groups) = length-group_bytes ((c ∷ g) ∷ groups) in
    let e = join-cons c g groups in
    let ungapped =
      parse_ipv6-ungapped c (join b':' (g ∷ groups)) num
        (subst (λ t. all_b is_group_char t ≡ true) e (join-group_chars ((c ∷ g) ∷ groups) h))
        (subst (λ t. split_gap t ≡ t ∷ []) e (split_gap-join ((c ∷ g) ∷ groups) h))
        (subst (λ t. left_groups (split b':' t) ≡ some num) e
          (rw (split-join b':' (c ∷ g) groups (groups-free ((c ∷ g) ∷ groups) h))
            (left_groups-group_bytes ((c ∷ g) ∷ groups) h)))
        (omega (arith, n)) in
    subst (λ k. parse_ipv6 (join b':' ((c ∷ g) ∷ groups)) ≡ some (num ++ replicate (16 - k) 0)) n
      (subst (λ t. parse_ipv6 t ≡ some (num ++ replicate (16 - length num) 0)) (sym e) ungapped)
