-- ===== src/Wireless/Status.antt =====
-- `getWirelessStatus` and `getAssocLists` of wireless.js: the replies for the devices, by radio.
pub mod Grouped
use Prim.Native.Char.{code}
use text.Mathlib.Text.{◌==◌ as str_eq}
use xluci.Prelude.{
  ℕ, String, Bool, true, false, ◌||◌, ◌&&◌, Option, none, some, List, [], ◌∷◌, ◌++◌, ◌==◌,
  if◌then◌else◌, all_b,
}
use xluci.Prelude.Dict.{Dict, lookup, put, remove}
use xluci.Text.{codes, is_digit, texts_equal}
use xluci.Uci.Save.{str_leb}

-- The reply for a device, as `getDeviceStatus` filters it: its radio, its name and its other attributes.
pub record Reply (V : Type 0) : Type 0 where
  pub phy : String
  pub device : String
  pub attributes : Dict V

-- An element of `networks`.
pub record Net (V : Type 0) : Type 0 where
  pub device : String
  pub attributes : Dict V

-- What is returned of a radio.
pub record Phy (V : Type 0) : Type 0 where
  pub phy : String
  pub attributes : Dict V
  pub networks : List (Net V)

-- The attributes but `phy`.
abbrev pub phy_attrs : List String
phy_attrs =
    "country" ∷ "channel" ∷ "frequency" ∷ "frequency_offset" ∷ "txpower" ∷ "txpower_offset"
    ∷ "hwmodes" ∷ "hardware" ∷ []

abbrev pub net_attrs : List String
net_attrs =
    "ssid" ∷ "bssid" ∷ "mode" ∷ "quality" ∷ "quality_max" ∷ "signal" ∷ "noise" ∷ "bitrate"
    ∷ "encryption" ∷ []

-- o[k] = v; an attribute that is undefined reads as one that is not there
unfoldable pub set_attr : {V : Type 0} → String → Option V → Dict V → Dict V
set_attr k none o = remove k o
set_attr k (some v) o = put k v o

-- o[attrs[j]] = source[attrs[j]]
unfoldable pub copy_attrs : {V : Type 0} → List String → Dict V → Dict V → Dict V
unfolding set_attr
copy_attrs [] source o = o
copy_attrs (k ∷ attrs) source o = copy_attrs attrs source (set_attr k (lookup k source) o)

-- \.sta\d+$
unfoldable pub is_sta : List ℕ → Bool
unfolding is_digit
is_sta (a ∷ b ∷ c ∷ d ∷ e ∷ s) =
    (a == b'.' && (b == b's' && (c == b't' && d == b'a'))) && (is_digit e && all_b is_digit s)
is_sta _ = false

-- The text before the end `\.sta\d+`.
unfoldable pub before_sta : String → Option String
unfolding is_sta
before_sta String.[] = none
before_sta (String.◌∷◌ c s) =
    let rest = before_sta s in
    if is_sta (codes (String.◌∷◌ c s))
    then some ""
    else (elim rest [ none ↦ none | some p ↦ some (String.◌∷◌ c p) ])

-- RegExp.$1 of /^(.+)\.sta\d+$/, where it matches
unfoldable pub parent_name : String → Option String
unfolding before_sta
parent_name device = elim (before_sta device) [
  | none ↦ none
  | some p ↦ if str_eq p "" then none else some p
]

-- The attributes that a wds interface takes from its parent: those that it lacks, and the encryption.
unfoldable pub inherit : {V : Type 0} → List String → Dict V → Dict V → Dict V → Dict V
unfolding set_attr
inherit [] source parent o = o
inherit (k ∷ attrs) source parent o =
    let taken = inherit attrs source parent (set_attr k (lookup k parent) o) in
    let own = inherit attrs source parent o in
    elim (lookup k source) [ none ↦ taken | some v ↦ if str_eq k "encryption" then taken else own ]

-- net, with the networks seen before
unfoldable pub net_of : {V : Type 0} → Reply V → Dict (Net V) → Net V
unfolding copy_attrs parent_name inherit
net_of r seen =
    let own = copy_attrs net_attrs r.attributes [] in
    elim (parent_name r.device) [
      | none ↦ record { device = r.device; attributes = own }
      | some p ↦ elim (lookup p seen) [
        | none ↦ record { device = r.device; attributes = own }
        | some parent ↦ record {
          device = r.device;
          attributes = inherit net_attrs r.attributes parent.attributes own;
        }
      ]
    ]

-- rv[networks[i].phy], made if there is none
unfoldable pub phy_at : {V : Type 0} → String → Dict (Phy V) → Phy V
phy_at k rv = elim (lookup k rv) [
  | none ↦ record { phy = k; attributes = []; networks = [] }
  | some p ↦ p
]

-- The loop over the replies; it throws at a device without status.
unfoldable pub status_from :
    {V : Type 0} → List (Option (Reply V)) → Dict (Net V) → Dict (Phy V) → Option (Dict (Phy V))
unfolding net_of phy_at copy_attrs
status_from [] seen rv = some rv
status_from (none ∷ networks) seen rv = none
status_from (some r ∷ networks) seen rv =
    let net = net_of r seen in
    let phy = phy_at r.phy rv in
    status_from networks (put r.device net seen) (
      put r.phy
        (record {
          phy = r.phy;
          attributes = copy_attrs phy_attrs r.attributes phy.attributes;
          networks = phy.networks ++ net ∷ [];
        })
        rv)

-- getWirelessStatus(), of the replies of the batch
unfoldable pub wireless_status : {V : Type 0} → List (Option (Reply V)) → Option (Dict (Phy V))
unfolding status_from
wireless_status networks = status_from networks [] []

-- An associated station: its address and its other attributes, with the device.
pub record Station (V : Type 0) : Type 0 where
  pub device : String
  pub bssid : String
  pub attributes : Dict V

-- The filter of getAssocList: the device is noted, and the stations are sorted by address.
unfoldable pub insert_station : {V : Type 0} → Station V → List (Station V) → List (Station V)
unfolding str_leb
insert_station x [] = x ∷ []
insert_station x (y ∷ l) = if str_leb x.bssid y.bssid then x ∷ y ∷ l else y ∷ insert_station x l

unfoldable pub assoc_list : {V : Type 0} → String → List (Station V) → List (Station V)
unfolding insert_station
assoc_list device [] = []
assoc_list device (x ∷ l) = insert_station (record x { device = device }) (assoc_list device l)

-- getAssocLists(), of the replies of the batch
unfoldable pub assoc_lists : {V : Type 0} → List (List (Station V)) → List (Station V)
assoc_lists [] = []
assoc_lists (l ∷ assoclists) = l ++ assoc_lists assoclists
