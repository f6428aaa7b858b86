-- ===== src/Firewall/Found.antt =====
-- Which last `findZoneByNetwork` and `findZoneByName` return.
use xluci.Prelude.{
  String, Bool, true, false, ◌&&◌, not, Option, none, some, List, [], ◌∷◌, ◌++◌, ◌≡◌, ◌⊎◌, ◌∙◌, sym,
  ◌↔◌, refl, ap, arith, All, Bool-cases, inl, inr, if◌then◌else◌,
}
use xluci.Uci.Store.{State}
use xluci.Uci.Access.{contains}
use xluci.Firewall.{
  zone_get, zone_network, is_blank, is_text, find_zone_by_network, find_zone_by_name,
}

-- The last element that passes a test, or `last` if there is none.
unfoldable pub last_match : (String → Bool) → List String → Option String → Option String
last_match test [] last = last
last_match test (z ∷ zones) last = last_match test zones (if test z then some z else last)

last_match-none :
    (test : String → Bool) (zones : List String) (last : Option String)
    → All (λ z. test z ≡ false) zones
    → last_match test zones last ≡ last
unfolding last_match
last_match-none test [] last h = refl
last_match-none test (z ∷ zones) last h = ground (arith, h.0, last_match-none test zones last h.1)

last_match-here :
    (test : String → Bool) (a b : List String) (z : String) (last : Option String)
    → test z ≡ true
    → All (λ z. test z ≡ false) b
    → last_match test (a ++ z ∷ b) last ≡ some z
unfolding last_match
last_match-here test [] b z last h none_later =
    ground (arith, h, last_match-none test b (some z) none_later)
last_match-here test (y ∷ a) b z last h none_later =
    last_match-here test a b z (if test y then some y else last) h none_later

-- Where the last match stands in the list.
abbrev pub Last : (String → Bool) → List String → String → Type 0
Last test zones z =
    (a : List String) × (b : List String) × (zones ≡ a ++ z ∷ b)
    × (test z ≡ true)
    × All (λ y. test y ≡ false) b

Last-cons :
    (test : String → Bool) (y : String) (zones : List String) (z : String)
    → Last test zones z
    → Last test (y ∷ zones) z
Last-cons test y zones z (a, b, e, t, later) = (y ∷ a, b, ap (◌∷◌ y) e, t, later)

last_match-Last :
    (test : String → Bool) (zones : List String) (last : Option String) (z : String)
    → last_match test zones last ≡ some z
    → ((last ≡ some z) × All (λ y. test y ≡ false) zones) ⊎ Last test zones z
unfolding last_match
last_match-Last test [] last z h = inl (h, tt)
last_match-Last test (y ∷ zones) last z h = elim (Bool-cases (test y)) [
  | inl t ↦ elim (last_match-Last test zones (if test y then some y else last) z h) [
    | inl (e, later) ↦
        let y_is_z : y ≡ z = ground (arith, t, e) in
        inr ([], zones, ap (λ x. x ∷ zones) y_is_z, ap test (sym y_is_z) ∙ t, later)
    | inr found ↦ inr (Last-cons test y zones z found)
  ]
  | inr f ↦ elim (last_match-Last test zones (if test y then some y else last) z h) [
    | inl (e, later) ↦ inl (ground (arith, f, e), (f, later))
    | inr found ↦ inr (Last-cons test y zones z found)
  ]
]

last_match_iff :
    (test : String → Bool) (zones : List String) (z : String)
    → (last_match test zones none ≡ some z) ↔ Last test zones z
last_match_iff test zones z = (
  λ h. elim (last_match-Last test zones none z h) [
    | inl (e, _) ↦ absurd (ground (arith, e))
    | inr found ↦ found
  ],
  λ (a, b, e, t, later).
      ap (λ l. last_match test l none) e ∙ last_match-here test a b z none t later,
)

-- A zone that has a name and the network.
abbrev pub covers : State → String → String → Bool
covers st network z = not (is_blank (zone_get st z "name")) && contains (zone_network st z) network

abbrev pub named : State → String → String → Bool
named st name z = is_text name (zone_get st z "name")

find_zone_by_network-last_match :
    (st : State) (zones : List String) (network : String) (last : Option String)
    → find_zone_by_network st zones network last ≡ last_match (covers st network) zones last
unfolding find_zone_by_network last_match
find_zone_by_network-last_match st [] network last = refl
find_zone_by_network-last_match st (z ∷ zones) network last =
    find_zone_by_network-last_match st zones network _
    ∙ ap (λ l. last_match (covers st network) zones l) (ground arith)

find_zone_by_name-last_match :
    (st : State) (zones : List String) (name : String) (last : Option String)
    → find_zone_by_name st zones name last ≡ last_match (named st name) zones last
unfolding find_zone_by_name last_match
find_zone_by_name-last_match st [] name last = refl
find_zone_by_name-last_match st (z ∷ zones) name last = find_zone_by_name-last_match st zones name _

-- `findZoneByNetwork` returns the last zone that has a name and the network, and `findZoneByName` the
-- last that has the name: the loops go on behind a match.
pub find_zones_iff :
    (st : State) (zones : List String) (network name z : String)
    → ((find_zone_by_network st zones network none ≡ some z) ↔ (
        (a : List String) × (b : List String) × (zones ≡ a ++ z ∷ b)
        × (covers st network z ≡ true)
        × All (λ y. covers st network y ≡ false) b))
      × ((find_zone_by_name st zones name none ≡ some z) ↔ (
          (a : List String) × (b : List String) × (zones ≡ a ++ z ∷ b)
          × (named st name z ≡ true)
          × All (λ y. named st name y ≡ false) b))
find_zones_iff st zones network name z = (
  rw (find_zone_by_network-last_match st zones network none)
      (last_match_iff (covers st network) zones z),
  rw (find_zone_by_name-last_match st zones name none) (last_match_iff (named st name) zones z),
)
