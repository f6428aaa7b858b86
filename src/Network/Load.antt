-- ===== src/Network/Load.antt =====
-- `loadDevicesCallback` of network.js: the device objects, from the answers of the router and the
-- sections of the packages network and wireless.
pub mod Tables
pub mod Config
pub mod Interfaces
pub mod Named
use Prim.Native.Char.{code}
use Prim.Native.String.{◌++◌ as append}
use text.Mathlib.Text.{◌==◌ as str_eq}
use xluci.Prelude.{
  ℕ, ◌+◌, String, Bool, true, false, ◌||◌, ◌&&◌, not, Option, none, some, List, [], ◌∷◌, ◌++◌, ◌==◌,
  all_b, if◌then◌else◌,
}
use xluci.Prelude.Dict.{Dict, lookup, put}
use xluci.Text.{Text, codes, is_digit}
use xluci.Convert.{to_array}
use xluci.Uci.Store.{Value, str, list, Section, State}
use xluci.Uci.Access.{contains, get_option}
use xluci.Uci.Sections.{sections}
use xluci.Uci.Save.{insert_name}
use xluci.Network.Objects.{Wifi, Device, Network, get_device_object}

-- What follows the given start of a text.
unfoldable pub strip : Text → Text → Option Text
strip [] s = some s
strip (c ∷ t) [] = none
strip (c ∷ t) (d ∷ s) = if c == d then strip t s else none

-- ^[0-9]+$
unfoldable pub all_digits : Text → Bool
unfolding is_digit
all_digits [] = false
all_digits (c ∷ s) = all_b is_digit (c ∷ s)

-- ^…[0-9]+$, for a name without special characters
unfoldable pub numbered : String → Text → Bool
unfolding strip all_digits
numbered name dev = elim (strip (codes name) dev) [ none ↦ false | some s ↦ all_digits s ]

-- ^[0-9]*\.sta[0-9]+$
unfoldable pub station_end : Text → Bool
unfolding numbered is_digit
station_end [] = false
station_end (c ∷ s) =
    let rest = station_end s in if is_digit c then rest else numbered ".sta" (c ∷ s)

-- /^wlan[0-9]+\.sta[0-9]+$/
unfoldable pub is_station : Text → Bool
unfolding strip station_end is_digit
is_station dev = elim (strip (codes "wlan") dev) [
  | none ↦ false
  | some [] ↦ false
  | some (c ∷ s) ↦ is_digit c && station_end s
]

-- isBlacklistedDevice(dev)
unfoldable pub is_blacklisted : String → Bool
unfolding numbered is_station
is_blacklisted ifname =
    let dev = codes ifname in
    numbered "gre" dev
    || (numbered "gretap" dev
        || (numbered "ifb" dev
            || (numbered "ip6tnl" dev
                || (numbered "sit" dev
                    || (is_station dev || (numbered "tunl" dev || numbered "ip6gre" dev))))))

-- An element of `devstate` and of `devlist`.
pub record DevState : Type 0 where
  pub name : String
  pub up : Bool
  pub type : String

pub record DevEntry : Type 0 where
  pub device : String
  pub is_up : Bool
  pub type : ℕ
  pub is_bridge : Bool
  pub is_tuntap : Bool
  pub is_wireless : Bool

-- A network of `wifistate[radio].interfaces`.
pub record WifiNet : Type 0 where
  pub section : String
  pub ifname : Option String

-- `rpcCache`: `swstate` by switch with its `cpu_port`.
pub record Cache : Type 0 where
  pub devstate : List DevState
  pub devlist : List DevEntry
  pub swstate : Dict ℕ
  pub wifistate : Dict (List WifiNet)

-- `parseInt`, where it is a natural number, and the text of a number.
pub record Numbers : Type 0 where
  pub parse_int : String → Option ℕ
  pub text_of : ℕ → String

-- var entry = self.getDeviceObject(ifname), and the assignments to its attributes
unfoldable pub with_device : Network → String → (Device → Device) → Network
unfolding get_device_object
with_device net ifname change =
    let (entry, net') = get_device_object net ifname in
    record net' { devices = put ifname (change entry) net'.devices }

-- The loop over `devstate`.
unfoldable pub add_state : DevState → Device → Device
add_state s entry = record entry {
  up = s.up;
  kind =
      if str_eq s.type "IP tunnel"
      then "tunnel"
      else if str_eq s.type "Bridge"
      then "bridge"
      else entry.kind;
}

unfoldable pub load_states : List DevState → Network → Network
unfolding is_blacklisted with_device add_state
load_states [] net = net
load_states (s ∷ l) net =
    load_states l (if is_blacklisted s.name then net else with_device net s.name (add_state s))

-- The loop over `devlist`.
unfoldable pub is_tunnel_type : ℕ → Bool
is_tunnel_type t = t == 512 || (t == 768 || (t == 769 || (t == 776 || t == 778)))

unfoldable pub kind_of : DevEntry → String → String
unfolding is_tunnel_type
kind_of d kind =
    if d.type == 1
    then (if d.is_bridge
        then "bridge"
        else if d.is_tuntap
        then "tunnel"
        else if d.is_wireless
        then "wifi"
        else kind)
    else if is_tunnel_type d.type
    then "tunnel"
    else kind

unfoldable pub add_entry : DevEntry → Device → Device
unfolding kind_of
add_entry d entry = record entry { up = d.is_up; type = d.type; kind = kind_of d entry.kind }

unfoldable pub load_entries : List DevEntry → Network → Network
unfolding is_blacklisted with_device add_entry
load_entries [] net = net
load_entries (d ∷ l) net =
    load_entries l (if is_blacklisted d.device then net else with_device net d.device (add_entry d))

-- s[key], where it is a text that is not empty
unfoldable pub text_option : Section → String → Option String
text_option s key = elim (lookup key s.options) [
  | some (str t) ↦ if str_eq t "" then none else some t
  | _ ↦ none
]

-- The objects of the names of an interface are made.
unfoldable pub make_devices : List String → Network → Network
unfolding get_device_object
make_devices [] net = net
make_devices (n ∷ l) net = make_devices l (get_device_object net n).1

-- A section of the type device, with a name.
unfoldable pub add_device_section : Section → Device → Device
unfolding text_option
add_device_section s entry = record entry {
  kind = elim (text_option s "type") [
    | none ↦ entry.kind
    | some t ↦ if str_eq t "macvlan" || str_eq t "tunnel" then "tunnel" else entry.kind
  ];
  sid = some s.name;
}

unfoldable pub add_alias : Section → Device → Device
add_alias s entry = record entry { type = 0; kind = "alias"; sid = some s.name }

-- A section of the type interface, which is not anonymous and has `ifname`.
unfoldable pub add_interface_section : Section → Network → Network
unfolding make_devices with_device add_alias
add_interface_section s net =
    let net' = make_devices (to_array (lookup "ifname" s.options)) net in
    if str_eq s.name "loopback" then net' else with_device net' (append "@" s.name) (add_alias s)

-- ports[j].replace(/[^tu]/g, '')
unfoldable pub only_tu : String → String
only_tu String.[] = String.[]
only_tu (String.◌∷◌ c s) =
    let rest = only_tu s in if code c == b't' || code c == b'u' then String.◌∷◌ c rest else rest
