-- ===== src/Network/Status.antt =====
-- The questions of the classes Device and Interface of network.js.
use text.Mathlib.Text.{◌==◌ as str_eq}
use xluci.Prelude.{
  String, Bool, true, false, not, ◌&&◌, ◌||◌, Option, none, some, List, [], ◌∷◌, ◌==◌,
  if◌then◌else◌,
}
use xluci.Uci.Store.{Value, str, State}
use xluci.Uci.Access.{contains, get_option}
use xluci.Network.Objects.{Device, Interface, Network, get_device}
use xluci.Network.Load.{DevEntry}

-- Device.isUp()
unfoldable pub is_up : List DevEntry → Device → Bool
is_up [] dev = false
is_up (d ∷ l) dev = let rest = is_up l dev in if str_eq d.device dev.ifname then d.is_up else rest

-- Device.isAlias(), isBridge(), isBridgeable() and isWireless()
unfoldable pub is_alias : Device → Bool
is_alias dev = str_eq dev.kind "alias"

unfoldable pub is_bridge : Device → Bool
is_bridge dev = str_eq dev.kind "bridge"

unfoldable pub is_bridgeable : Device → Bool
unfolding is_bridge
is_bridgeable dev = dev.type == 1 && not (is_bridge dev)

unfoldable pub is_wireless : Device → Bool
is_wireless dev = str_eq dev.kind "wifi"

unfoldable pub is_name : Option String → String → Bool
is_name none ifname = false
is_name (some n) ifname = str_eq n ifname

-- Device.isInNetwork(net), for the object of an interface
unfoldable pub is_in_network : Network → Device → Interface → Bool
unfolding is_name get_device is_bridge contains
is_in_network net dev ifc =
    if is_name ifc.l3dev dev.ifname || is_name ifc.l2dev dev.ifname
    then true
    else (elim (get_device net ifc.l2dev) [
      | none ↦ false
      | some b ↦
          if is_bridge b
          then (elim b.ports [ none ↦ false | some l ↦ contains l dev.ifname ])
          else false
    ])

-- Interface.isVirtual()
unfoldable pub is_virtual_interface : Interface → Bool
is_virtual_interface ifc = elim ifc.sid [ none ↦ true | some sid ↦ false ]

-- Interface.protocol()
unfoldable pub protocol : State → Interface → Option Value
protocol st ifc = elim (get_option st "network" ifc.name "proto") [
  | none ↦ some (str "none")
  | some (str p) ↦ if str_eq p "" then some (str "none") else some (str p)
  | some v ↦ some v
]
