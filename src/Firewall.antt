-- ===== src/Firewall.antt =====
-- firewall.js: zones and forwardings, which are sections of the package `firewall`. A zone is the name
-- of its section; what it is asked it reads from the configuration store.
pub mod Zones
pub mod Networks
pub mod Forwards
pub mod Found
use text.Mathlib.Text.{◌==◌}
use xluci.Prelude.{
  ℕ, suc, String, Bool, true, false, Option, none, some, List, [], ◌∷◌, ◌++◌, if◌then◌else◌,
}
use xluci.Prelude.Dict.{lookup, put}
use xluci.Uci.Store.{Value, str, list, Section, State}
use xluci.Uci.Access.{get_option, set_option, contains, is_some, remove}
use xluci.Uci.Create.{add}
use xluci.Uci.Sections.{sections, visit}
use xluci.Uci.Save.{sorted_keys}
use xluci.Convert.{to_array, to_object}

-- Zone.get(key), Zone.set(key, val); so for a forwarding
unfoldable pub zone_get : State → String → String → Option Value
zone_get st sid key = get_option st "firewall" sid key

unfoldable pub zone_set : State → String → String → Value → State
zone_set st sid key val = set_option st "firewall" sid key (some val)

-- Zone.network()
unfoldable pub zone_network : State → String → List String
unfolding zone_get
zone_network st sid = to_array (zone_get st sid "network")

-- Zone.addNetwork(n)
unfoldable pub add_network : State → String → String → State
unfolding zone_set
add_network st sid n =
    let nets = to_object (zone_network st sid) [] in
    zone_set st sid "network"
      (list (sorted_keys (if is_some (lookup n nets) then nets else put n tt nets)))

-- nets.pop(n): Array.prototype.pop takes no argument
unfoldable pub pop : List String → List String
pop [] = []
pop (x ∷ []) = []
pop (x ∷ y ∷ l) = x ∷ pop (y ∷ l)

-- Zone.delNetwork(n)
unfoldable pub del_network : State → String → String → State
unfolding zone_set
del_network st sid n =
    let nets = zone_network st sid in
    zone_set st sid "network"
      (list (if is_some (lookup n (to_object nets [])) then pop nets else nets))

-- delNetwork(n), over all zones
unfoldable pub del_network_all : State → List String → String → State
unfolding del_network
del_network_all st [] n = st
del_network_all st (z ∷ zones) n =
    let rest = del_network_all (del_network st z n) zones n in if n == "" then st else rest

-- The callback of `loadZones` and `loadForwards`.
unfoldable pub push_sid : Section → String → List String → List String × Option Bool
push_sid s sid l = (l ++ sid ∷ [], none)

-- loadZones(): the zones, and the state after the call of `sections`
unfoldable pub load_zones : State → List String × State
unfolding push_sid
load_zones st = (
  visit push_sid (sections st "firewall" (some "zone")).0 [],
  (sections st "firewall" (some "zone")).1,
)

unfoldable pub load_forwards : State → List String × State
unfolding push_sid
load_forwards st = (
  visit push_sid (sections st "firewall" (some "forwarding")).0 [],
  (sections st "firewall" (some "forwarding")).1,
)

-- Whether a value is this text.
unfoldable pub is_text : String → Option Value → Bool
is_text s (some (str t)) = t == s
is_text s _ = false

-- !name
unfoldable pub is_blank : Option Value → Bool
is_blank none = true
is_blank (some (str t)) = t == ""
is_blank (some _) = false

-- findZoneByNetwork(network): `each` goes on after a match, so the last match stays
unfoldable pub find_zone_by_network : State → List String → String → Option String → Option String
unfolding is_blank
find_zone_by_network st [] network zone = zone
find_zone_by_network st (z ∷ zones) network zone = find_zone_by_network st zones network (
    if is_blank (zone_get st z "name")
    then zone
    else if contains (zone_network st z) network
    then some z
    else zone)

-- findZoneByName(name), with the last match too
unfoldable pub find_zone_by_name : State → List String → String → Option String → Option String
unfolding is_text
find_zone_by_name st [] name zone = zone
find_zone_by_name st (z ∷ zones) name zone =
    find_zone_by_name st zones name (if is_text name (zone_get st z "name") then some z else zone)

-- The settings that `createZone` makes.
unfoldable pub zone_settings : State → String → String → State
unfolding zone_set
zone_settings st sid name =
    zone_set
      (zone_set (zone_set (zone_set st sid "name" (str name)) sid "input" (str "ACCEPT")) sid
        "forward" (str "REJECT"))
      sid "output" (str "ACCEPT")

-- createZone(name): the section, the zones and the state
unfoldable pub create_zone :
    ℕ → (ℕ → String) → State → List String → String → Option (String × List String × State)
unfolding zone_settings
create_zone fuel draw st zones name = elim (add fuel draw st "firewall" "zone" none) [
  | none ↦ none
  | some (sid, st') ↦ some (sid, zones ++ sid ∷ [], zone_settings st' sid name)
]

-- findZoneBySid(sid)
unfoldable pub find_zone_by_sid : List String → String → Option String → Option String
find_zone_by_sid [] sid zone = zone
find_zone_by_sid (z ∷ zones) sid zone =
    find_zone_by_sid zones sid (if z == sid then some z else zone)
