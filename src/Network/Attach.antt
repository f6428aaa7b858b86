-- ===== src/Network/Attach.antt =====
-- `removeFromInterface` and `attachToInterface` of a device of network.js: a wired device stands in the
-- option `ifname` of the interface's section, a wireless one names the interface in its own section.
pub mod Removed
use text.Mathlib.Text.{◌==◌}
use xluci.Prelude.{
  String, Bool, true, false, Option, none, some, List, [], ◌∷◌, ◌++◌, if◌then◌else◌,
}
use xluci.Uci.Store.{Value, str, list, State, filter_array}
use xluci.Uci.Access.{get_option, set_option, contains}
use xluci.Convert.{to_array}
use xluci.Network.Objects.{Device, Interface}

-- L.toArray(iface.get('ifname'))
unfoldable pub interface_names : State → Interface → List String
interface_names st iface = to_array (get_option st "network" iface.name "ifname")

-- L.toArray(this.get('network')), for a wireless device with a section
unfoldable pub device_networks : State → String → List String
device_networks st sid = to_array (get_option st "wireless" sid "network")

-- The first part of `removeFromInterface`.
unfoldable pub remove_name : State → Device → Interface → State
unfolding interface_names
remove_name st dev iface =
    let ifnames = interface_names st iface in
    if contains ifnames dev.ifname
    then set_option st "network" iface.name "ifname" (some (list (filter_array ifnames dev.ifname)))
    else st

-- The second part, for a wireless device.
unfoldable pub remove_network : State → String → Interface → State
unfolding device_networks
remove_network st sid iface =
    let networks = device_networks st sid in
    if contains networks iface.name
    then set_option st "wireless" sid "network" (some (list (filter_array networks iface.name)))
    else st

-- removeFromInterface(iface), for an interface that there is
unfoldable pub remove_from_interface : State → Device → Interface → State
unfolding remove_name remove_network
remove_from_interface st dev iface =
    let st' = remove_name st dev iface in
    let wireless : State = elim dev.sid [ none ↦ st' | some sid ↦ remove_network st' sid iface ] in
    if dev.kind == "wifi" then wireless else st'

-- (l.length > 1) ? l : l[0]
unfoldable pub one_or_list : List String → Value
one_or_list (x ∷ []) = str x
one_or_list l = list l

-- attachToInterface(iface), for an interface that there is
unfoldable pub attach_to_interface : State → Device → Interface → State
unfolding interface_names device_networks one_or_list
attach_to_interface st dev iface =
    let ifnames = interface_names st iface in
    let wired =
      if contains ifnames dev.ifname
      then st
      else set_option st "network" iface.name "ifname"
          (some (one_or_list (ifnames ++ dev.ifname ∷ []))) in
    let wireless : State = elim dev.sid [
      | none ↦ st
      | some sid ↦
          let networks = device_networks st sid in
          if contains networks iface.name
          then st
          else set_option st "wireless" sid "network"
              (some (one_or_list (networks ++ iface.name ∷ [])))
    ] in
    if dev.kind == "wifi" then wireless else wired
