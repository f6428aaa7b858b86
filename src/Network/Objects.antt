-- ===== src/Network/Objects.antt =====
-- The device and interface objects of network.js, and how they are found and made.
pub mod Frame
use Prim.Native.Char.{code}
use text.Mathlib.Text.{◌==◌ as str_eq}
use xluci.Prelude.{
  ℕ, String, Bool, true, false, ◌||◌, Option, none, some, List, [], ◌∷◌, ◌==◌, if◌then◌else◌,
}
use xluci.Prelude.Dict.{Dict, lookup, put}
use xluci.Uci.Store.{Value}

-- `wid`, `wdev`, `wmode`, `wssid` and `wbssid` of a wireless device.
pub record Wifi : Type 0 where
  pub wid : String
  pub wdev : String
  pub wmode : Option Value
  pub wssid : Option Value
  pub wbssid : Option Value

-- A device object, with `ports` of a bridge, the switch and `vid` of a vlan, and what it has of a
-- wireless device.
pub record Device : Type 0 where
  pub ifname : String
  pub kind : String
  pub type : ℕ
  pub up : Bool
  pub sid : Option String
  pub ports : Option (List String)
  pub vlan : Option (String × ℕ)
  pub wifi : Option Wifi

pub record Interface : Type 0 where
  pub name : String
  pub proto : String
  pub sid : Option String
  pub l3dev : Option String
  pub l2dev : Option String

-- `deviceObjects` and `interfaceObjects`.
pub record Network : Type 0 where
  pub devices : Dict Device
  pub interfaces : Dict Interface

-- ifname.charAt(0) == '@'
unfoldable pub is_alias_name : String → Bool
is_alias_name String.[] = false
is_alias_name (String.◌∷◌ c s) = code c == b'@'

unfoldable pub new_device : String → Device
unfolding is_alias_name
new_device ifname = record {
  ifname = ifname;
  kind = if is_alias_name ifname then "alias" else "ethernet";
  type = if is_alias_name ifname then 0 else 1;
  up = false;
  sid = none;
  ports = none;
  vlan = none;
  wifi = none;
}

-- getDeviceObject(ifname): the object, made where there is none
unfoldable pub get_device_object : Network → String → Device × Network
unfolding new_device
get_device_object net ifname = elim (lookup ifname net.devices) [
  | some dev ↦ (dev, net)
  | none ↦ (new_device ifname, record net { devices = put ifname (new_device ifname) net.devices })
]

unfoldable pub new_interface : String → Interface
new_interface name = record { name = name; proto = "none"; sid = none; l3dev = none; l2dev = none }

-- getInterfaceObject(name)
unfoldable pub get_interface_object : Network → String → Interface × Network
unfolding new_interface
get_interface_object net name = elim (lookup name net.interfaces) [
  | some ifc ↦ (ifc, net)
  | none ↦
      (new_interface name, record net { interfaces = put name (new_interface name) net.interfaces })
]

-- o[k], where the key may be undefined
unfoldable pub at_key {ℓ} : {V : Type ℓ} → Option String → Dict V → Option V
at_key none d = none
at_key (some k) d = lookup k d

-- getDevice(ifname), with the object that it wraps
unfoldable pub get_device : Network → Option String → Option Device
unfolding at_key
get_device net ifname = at_key ifname net.devices

unfoldable pub or_else {ℓ} : {A : Type ℓ} → Option A → Option A → Option A
or_else none b = b
or_else (some a) b = some a

-- getDeviceByInterface(iface)
unfoldable pub get_device_by_interface : Network → String → Option Device
unfolding or_else
get_device_by_interface net iface = elim (lookup iface net.interfaces) [
  | none ↦ none
  | some ifc ↦ or_else (get_device net ifc.l3dev) (get_device net ifc.l2dev)
]

-- A route of an interface, as the router reports it.
pub record Route : Type 0 where
  pub mask : ℕ
  pub target : String
  pub table : Option String

-- An element of `rpcCache.ifstate`.
pub record IfState : Type 0 where
  pub name : String
  pub route : Option (List Route)

unfoldable pub is_default_route : String → Route → Bool
is_default_route ipaddr r =
    if r.mask == 0
    then (if str_eq r.target ipaddr then elim r.table [ none ↦ true | some t ↦ false ] else false)
    else false

unfoldable pub any_default : String → List Route → Bool
unfolding is_default_route
any_default ipaddr [] = false
any_default ipaddr (r ∷ rs) = is_default_route ipaddr r || any_default ipaddr rs

-- findWANByAddr(ipaddr): the interface object of the first state that has such a route
unfoldable pub find_wan_by_addr : Network → List IfState → String → Option Interface
unfolding any_default
find_wan_by_addr net [] ipaddr = none
find_wan_by_addr net (s ∷ ss) ipaddr =
    let rest = find_wan_by_addr net ss ipaddr in
    elim s.route [
      | none ↦ rest
      | some rs ↦ if any_default ipaddr rs then lookup s.name net.interfaces else rest
    ]
