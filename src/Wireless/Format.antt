-- ===== src/Wireless/Format.antt =====
-- `formatEncryption` of wireless.js.
use Prim.Native.String.{◌++◌ as append}
use text.Mathlib.Text.{◌==◌ as str_eq}
use xluci.Prelude.{
  ℕ, String, Bool, false, Option, none, some, List, [], ◌∷◌, ◌==◌, map, length, if◌then◌else◌,
}
use xluci.Cbi.Js.{join}

-- The description of an encryption that the router sends.
pub record Encryption : Type 0 where
  pub enabled : Bool
  pub wep : Option (List String)
  pub wpa : Option (List ℕ)
  pub ciphers : List String
  pub authentication : List String

-- `tr` is L.tr, and `upper` is toUpperCase of texts.
module _ (tr upper : String → String) where
  -- format_list(l, s)
  unfoldable pub format_list : List String → String → String
  unfolding join
  format_list l s = join (if str_eq s "" then ", " else s) (map upper l)

  -- ' (%s)'.format(format_list(enc.ciphers, ', '))
  unfoldable pub in_brackets : List String → String
  unfolding format_list
  in_brackets ciphers = append " (" (append (format_list ciphers ", ") ")")

  -- '%s (%s)' of the authentication and the ciphers, behind a name and a space
  unfoldable pub with_suites : String → Encryption → String
  unfolding format_list in_brackets
  with_suites name enc =
      append name
        (append " " (append (format_list enc.authentication "/") (in_brackets enc.ciphers)))

  unfoldable pub first_is_shared : List String → Bool
  first_is_shared [] = false
  first_is_shared (x ∷ l) = str_eq x "shared"

  unfoldable pub first_is_two : List ℕ → Bool
  first_is_two [] = false
  first_is_two (x ∷ l) = x == 2

  unfoldable pub format_wep : List String → Encryption → Bool → String
  unfolding first_is_shared in_brackets
  format_wep wep enc condensed =
      if condensed
      then tr "WEP"
      else if length wep == 2
      then append (tr "WEP Open/Shared") (in_brackets enc.ciphers)
      else if first_is_shared wep
      then append (tr "WEP Shared Auth") (in_brackets enc.ciphers)
      else append (tr "WEP Open System") (in_brackets enc.ciphers)

  unfoldable pub format_wpa : List ℕ → Encryption → Bool → String
  unfolding first_is_two with_suites
  format_wpa wpa enc condensed =
      if condensed
      then (if length wpa == 2
          then tr "WPA mixed"
          else if first_is_two wpa
          then tr "WPA2"
          else tr "WPA")
      else if length wpa == 2
      then with_suites (tr "mixed WPA/WPA2") enc
      else if first_is_two wpa
      then with_suites "WPA2" enc
      else with_suites "WPA" enc

  -- formatEncryption(enc, condensed)
  unfoldable pub format_encryption : Option Encryption → Bool → String
  unfolding format_wep format_wpa
  format_encryption none condensed = tr "No encryption"
  format_encryption (some enc) condensed =
      if enc.enabled
      then (elim enc.wep [
        | some wep ↦ format_wep wep enc condensed
        | none ↦ elim enc.wpa [ some wpa ↦ format_wpa wpa enc condensed | none ↦ tr "Unknown" ]
      ])
      else tr "No encryption"
