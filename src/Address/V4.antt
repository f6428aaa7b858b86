-- ===== src/Address/V4.antt =====
-- `parseIPv4` reads what is written in dotted form, and only four numbers up to 255.
use xluci.Prelude.{
  ℕ, ◌+◌, ◌/◌, ◌%◌, ◌≤◌, true, some, List, [], ◌∷◌, ◌≡◌, arith, ltb, if◌then◌else◌, length, All,
}
use xluci.Text.{Text, digits_value, is_digit, digit}
use xluci.Text.Split.{split, join, free_of, split-join}
use xluci.Address.{is_octet_text, matches_ipv4, octets, parse_ipv4}

-- A number up to 255 in decimal, without zeros in front.
unfoldable pub decimal : ℕ → Text
decimal n =
    if ltb n 10
    then (b'0' + n) ∷ []
    else if ltb n 100
    then (b'0' + n / 10) ∷ (b'0' + n % 10) ∷ []
    else (b'0' + n / 100) ∷ (b'0' + n / 10 % 10) ∷ (b'0' + n % 10) ∷ []

-- a.b.c.d
unfoldable pub print_ipv4 : ℕ → ℕ → ℕ → ℕ → Text
print_ipv4 a b c d = join b'.' (decimal a ∷ decimal b ∷ decimal c ∷ decimal d ∷ [])

octets-length :
    (parts : List Text) (num : List ℕ) → octets parts ≡ some num → length num ≡ length parts
unfolding octets
octets-length [] num h = ground arith
octets-length (part ∷ parts) [] h = ground (arith, h)
octets-length (part ∷ parts) (n ∷ num) h = ground (arith, octets-length parts num)

decimal-is_octet_text : (n : ℕ) → n ≤ 255 → is_octet_text (decimal n) ≡ true
unfolding is_octet_text decimal is_digit
decimal-is_octet_text n h = ground arith

decimal-value : (n : ℕ) → n ≤ 255 → digits_value 10 0 (decimal n) ≡ n
unfolding digits_value decimal is_digit digit
decimal-value n h = ground arith

decimal-free : (n : ℕ) → n ≤ 255 → free_of b'.' (decimal n) ≡ true
unfolding decimal
decimal-free n h = ground arith

octets-bounded :
    (parts : List Text) (num : List ℕ) → octets parts ≡ some num → All (λ n. n ≤ 255) num
unfolding octets
octets-bounded [] [] h = tt
octets-bounded [] (n ∷ num) h = absurd (ground (arith, h))
octets-bounded (part ∷ parts) [] h = tt
octets-bounded (part ∷ parts) (n ∷ num) h =
    (ground (arith, h), octets-bounded parts num (ground (arith, h)))

-- What `parseIPv4` returns is a list of four numbers of at most 255.
pub parse_ipv4-bounded :
    (s : Text) (num : List ℕ) → parse_ipv4 s ≡ some num → (length num ≡ 4) × All (λ n. n ≤ 255) num
unfolding parse_ipv4 matches_ipv4
parse_ipv4-bounded s num h = (
  ground (arith, h, octets-length (split b'.' s) num),
  octets-bounded (split b'.' s) num (ground (arith, h)),
)

-- `parseIPv4` reads the dotted form of any four numbers up to 255 as these numbers.
pub parse_ipv4-print_ipv4 :
    (a b c d : ℕ)
    → a ≤ 255
    → b ≤ 255
    → c ≤ 255
    → d ≤ 255
    → parse_ipv4 (print_ipv4 a b c d) ≡ some (a ∷ b ∷ c ∷ d ∷ [])
unfolding parse_ipv4 matches_ipv4 print_ipv4 octets
parse_ipv4-print_ipv4 a b c d ha hb hc hd =
    rw
      (split-join b'.' (decimal a) (decimal b ∷ decimal c ∷ decimal d ∷ [])
        (decimal-free a ha, (decimal-free b hb, (decimal-free c hc, (decimal-free d hd, tt)))))
      (ground (
        arith,
        decimal-is_octet_text a ha,
        decimal-is_octet_text b hb,
        decimal-is_octet_text c hc,
        decimal-is_octet_text d hd,
        decimal-value a ha,
        decimal-value b hb,
        decimal-value c hc,
        decimal-value d hd,
      ))
