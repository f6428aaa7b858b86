-- ===== src/Validation/Names.antt =====
-- The validators of names, keys and hardware addresses of cbi.js.
use xluci.Prelude.{
  ℕ, Bool, false, not, ◌&&◌, ◌||◌, [], ◌∷◌, leb, ltb, ◌==◌, if◌then◌else◌, length, all_b,
}
use xluci.Text.{Text, is_digit, is_hex, is_letter}
use xluci.Text.Split.{split}
use xluci.Validation.Addresses.{is_ipaddr}

-- [a-fA-F0-9]{2}
unfoldable pub is_hex_pair : Text → Bool
unfolding is_hex
is_hex_pair s = length s == 2 && all_b is_hex s

-- /^([a-fA-F0-9]{2}:){5}[a-fA-F0-9]{2}$/
unfoldable pub is_macaddr : Text → Bool
unfolding is_hex_pair split
is_macaddr s = let parts = split b':' s in length parts == 6 && all_b is_hex_pair parts

-- [a-zA-Z0-9]
unfoldable pub is_alnum : ℕ → Bool
unfolding is_letter is_digit
is_alnum c = is_letter c || is_digit c

-- [a-zA-Z0-9_]
unfoldable pub is_word : ℕ → Bool
unfolding is_alnum
is_word c = is_alnum c || c == b'_'

-- [a-zA-Z0-9_\-.]*[a-zA-Z0-9]$
unfoldable pub host_tail : Text → Bool
unfolding is_word
host_tail [] = false
host_tail (c ∷ []) = is_alnum c
host_tail (c ∷ d ∷ s) = (is_word c || (c == b'-' || c == b'.')) && host_tail (d ∷ s)

-- /^[a-zA-Z0-9_][a-zA-Z0-9_\-.]*[a-zA-Z0-9]$/
unfoldable pub is_host_text : Text → Bool
unfolding is_word host_tail
is_host_text [] = false
is_host_text (c ∷ s) = is_word c && host_tail s

-- /[^0-9.]/
unfoldable pub has_other : Text → Bool
unfolding is_digit
has_other s = not (all_b (λ c. is_digit c || c == b'.') s)

unfoldable pub is_hostname : Text → Bool
unfolding is_alnum is_host_text has_other
is_hostname s =
    leb (length s) 253
    && ((ltb 0 (length s) && all_b is_alnum s) || (is_host_text s && has_other s))

unfoldable pub is_host : Text → Bool
unfolding is_hostname
is_host s = is_hostname s || is_ipaddr s

unfoldable pub is_uciname : Text → Bool
unfolding is_word
is_uciname s = ltb 0 (length s) && all_b is_word s

unfoldable pub is_network : Text → Bool
unfolding is_uciname is_host
is_network s = is_uciname s || is_host s

unfoldable pub is_wpakey : Text → Bool
unfolding is_hex
is_wpakey s = if length s == 64 then all_b is_hex s else leb 8 (length s) && leb (length s) 63

-- v.substr(2) where the text begins with s:
unfoldable pub without_prefix : Text → Text
without_prefix (c ∷ d ∷ s) = if c == b's' && d == b':' then s else c ∷ d ∷ s
without_prefix s = s

unfoldable pub is_wepkey : Text → Bool
unfolding is_hex without_prefix
is_wepkey s =
    let v = without_prefix s in
    if length v == 10 || length v == 26 then all_b is_hex v else length v == 5 || length v == 13

-- /^[0-9\*#!\.]+$/
unfoldable pub is_phonedigit : Text → Bool
unfolding is_digit
is_phonedigit s =
    ltb 0 (length s)
    && all_b (λ c. is_digit c || (c == b'*' || (c == b'#' || (c == b'!' || c == b'.')))) s
