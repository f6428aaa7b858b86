-- ===== src/Validation/Cidr.antt =====
-- The prefixes of IPv4 networks that `cidr4` accepts.
use xluci.Prelude.{
  ℕ, ◌≤◌, Bool, true, ◌||◌, some, [], ◌∷◌, ◌++◌, ◌≡◌, refl, arith, leb, ◌==◌, length, all_b,
  all_b-append, length-append,
}
use xluci.Text.{Text, is_digit, digits_value}
use xluci.Text.Split.{free_of, split-append, split-free, join}
use xluci.Address.V4.{decimal, print_ipv4, parse_ipv4-print_ipv4}
use xluci.Uci.Access.{is_some}
use xluci.Validation.Addresses.{is_cidr4, two_parts, dotted_chars, short_number}

abbrev dotted_char : ℕ → Bool
dotted_char c = is_digit c || c == b'.'

dotted_char-free : (s : Text) → all_b dotted_char s ≡ true → free_of b'/' s ≡ true
unfolding is_digit
dotted_char-free [] h = refl
dotted_char-free (c ∷ s) h = ground (arith, h, dotted_char-free s)

two_parts-slash :
    (s t : Text)
    → free_of b'/' s ≡ true
    → free_of b'/' t ≡ true
    → two_parts (s ++ (b'/' ∷ t)) ≡ some (s, t)
unfolding two_parts
two_parts-slash s t h k = ground (arith, split-append b'/' s t h, split-free b'/' t k)

decimal-dotted : (k : ℕ) → k ≤ 255 → all_b dotted_char (decimal k) ≡ true
unfolding decimal is_digit
decimal-dotted k h = ground arith

decimal-nonempty : (k : ℕ) → 1 ≤ length (decimal k)
unfolding decimal
decimal-nonempty k = ground arith

decimal-short : (k : ℕ) → k ≤ 255 → short_number 2 (decimal k) ≡ leb k 99
unfolding decimal is_digit short_number
decimal-short k h = ground arith

decimal-value : (n : ℕ) → n ≤ 255 → digits_value 10 0 (decimal n) ≡ n
unfolding digits_value decimal
decimal-value n h = ground arith

append-dotted :
    (k : ℕ) (t : Text)
    → k ≤ 255
    → all_b dotted_char t ≡ true
    → all_b dotted_char (decimal k ++ (b'.' ∷ t)) ≡ true
unfolding is_digit
append-dotted k t h e = all_b-append dotted_char (decimal k) (b'.' ∷ t) (decimal-dotted k h) e

print_ipv4-dotted :
    (a b c d : ℕ)
    → a ≤ 255
    → b ≤ 255
    → c ≤ 255
    → d ≤ 255
    → all_b dotted_char (print_ipv4 a b c d) ≡ true
unfolding print_ipv4 join
print_ipv4-dotted a b c d ha hb hc hd =
    append-dotted a _ ha (append-dotted b _ hb (append-dotted c _ hc (decimal-dotted d hd)))

print_ipv4-nonempty : (a b c d : ℕ) → 1 ≤ length (print_ipv4 a b c d)
unfolding print_ipv4 join
print_ipv4-nonempty a b c d = omega (
  arith,
  decimal-nonempty a,
  length-append (decimal a) (b'.' ∷ (decimal b ++ (b'.' ∷ (decimal c ++ (b'.' ∷ decimal d))))),
)

-- An address in dotted form, a slash and a number up to 255 in decimal is accepted as an IPv4 prefix
-- exactly if the number is at most 32.
pub is_cidr4-leb :
    (a b c d k : ℕ)
    → a ≤ 255
    → b ≤ 255
    → c ≤ 255
    → d ≤ 255
    → k ≤ 255
    → is_cidr4 (print_ipv4 a b c d ++ (b'/' ∷ decimal k)) ≡ leb k 32
unfolding is_cidr4 dotted_chars is_some
is_cidr4-leb a b c d k ha hb hc hd hk = ground (
  arith,
  two_parts-slash (print_ipv4 a b c d) (decimal k)
      (dotted_char-free (print_ipv4 a b c d) (print_ipv4-dotted a b c d ha hb hc hd))
      (dotted_char-free (decimal k) (decimal-dotted k hk)),
  print_ipv4-dotted a b c d ha hb hc hd,
  print_ipv4-nonempty a b c d,
  decimal-short k hk,
  decimal-value k hk,
  parse_ipv4-print_ipv4 a b c d ha hb hc hd,
)
