-- ===== src/Validation/Addresses.antt =====
-- The validators of addresses, masks and prefixes of cbi.js.
use xluci.Prelude.{
  ℕ, Bool, false, ◌&&◌, ◌||◌, Option, none, some, [], ◌∷◌, leb, ltb, ◌==◌, if◌then◌else◌, length,
  all_b,
}
use xluci.Text.{Text, is_digit, is_hex, digits_value}
use xluci.Text.Split.{split}
use xluci.Address.{parse_ipv4, parse_ipv6, is_netmask?}
use xluci.Uci.Access.{is_some}

unfoldable pub is_ip4addr : Text → Bool
unfolding is_some
is_ip4addr s = is_some (parse_ipv4 s)

unfoldable pub is_ip6addr : Text → Bool
unfolding is_some
is_ip6addr s = is_some (parse_ipv6 s)

unfoldable pub is_ipaddr : Text → Bool
unfolding is_some
is_ipaddr s = is_some (parse_ipv4 s) || is_some (parse_ipv6 s)

unfoldable pub is_netmask4 : Text → Bool
is_netmask4 s = is_netmask? (parse_ipv4 s)

unfoldable pub is_netmask6 : Text → Bool
is_netmask6 s = is_netmask? (parse_ipv6 s)

-- ^([…]+)/(…)$, where neither part may hold a slash
unfoldable pub two_parts : Text → Option (Text × Text)
unfolding split
two_parts s = elim (split b'/' s) [
  | [] ↦ none
  | a ∷ rest ↦ elim rest [ [] ↦ none | b ∷ more ↦ if length more == 0 then some (a, b) else none ]
]

-- [0-9.]+
unfoldable pub dotted_chars : Text → Bool
unfolding is_digit
dotted_chars s = ltb 0 (length s) && all_b (λ c. is_digit c || c == b'.') s

-- [a-fA-F0-9:.]+
unfoldable pub colon_chars : Text → Bool
unfolding is_hex
colon_chars s = ltb 0 (length s) && all_b (λ c. is_hex c || (c == b':' || c == b'.')) s

-- \d{1,n}
unfoldable pub short_number : ℕ → Text → Bool
unfolding is_digit
short_number n s = ltb 0 (length s) && (leb (length s) n && all_b is_digit s)

unfoldable pub is_cidr4 : Text → Bool
is_cidr4 s = elim (two_parts s) [
  | none ↦ false
  | some (addr, bits) ↦
      (dotted_chars addr && short_number 2 bits)
      && (leb (digits_value 10 0 bits) 32 && is_some (parse_ipv4 addr))
]

unfoldable pub is_cidr6 : Text → Bool
is_cidr6 s = elim (two_parts s) [
  | none ↦ false
  | some (addr, bits) ↦
      (colon_chars addr && short_number 3 bits)
      && (leb (digits_value 10 0 bits) 128 && is_some (parse_ipv6 addr))
]

unfoldable pub is_ipmask4 : Text → Bool
is_ipmask4 s = elim (two_parts s) [
  | none ↦ false
  | some (addr, mask) ↦
      (dotted_chars addr && dotted_chars mask)
      && (is_some (parse_ipv4 addr) && is_netmask? (parse_ipv4 mask))
]

unfoldable pub is_ipmask6 : Text → Bool
is_ipmask6 s = elim (two_parts s) [
  | none ↦ false
  | some (addr, mask) ↦
      (colon_chars addr && colon_chars mask)
      && (is_some (parse_ipv6 addr) && is_netmask? (parse_ipv6 mask))
]
