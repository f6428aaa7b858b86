-- ===== src/Network/Load/Interfaces.antt =====
-- `loadInterfacesCallback` of network.js: the interface objects.
use Prim.Native.String.{◌++◌ as append}
use text.Mathlib.Text.{◌==◌ as str_eq}
use xluci.Prelude.{
  String, Bool, false, not, ◌&&◌, Option, none, some, List, [], ◌∷◌, ◌++◌, if◌then◌else◌,
}
use xluci.Prelude.Dict.{Dict, lookup, put}
use xluci.Convert.{to_array}
use xluci.Uci.Store.{Section, State}
use xluci.Uci.Sections.{sections}
use xluci.Network.Objects.{Device, Interface, Network, get_interface_object}
use xluci.Network.Load.{text_option}
use xluci.Network.Load.Config.{wifi_ports}

-- An element of `rpcCache.ifstate`.
pub record IfaceState : Type 0 where
  pub name : String
  pub proto : String
  pub device : Option String
  pub l3_device : Option String

-- `protocolHandlers`: whether the handler of the name is virtual; `none` is that of the handler none.
pub record Handlers : Type 0 where
  pub named : Dict Bool
  pub fallback : Bool

-- self.protocolHandlers[proto] || self.protocolHandlers.none, by name
unfoldable pub handler_name : Handlers → String → String
handler_name h proto = elim (lookup proto h.named) [ none ↦ "none" | some v ↦ proto ]

unfoldable pub is_virtual : Handlers → String → Bool
is_virtual h proto = elim (lookup proto h.named) [ none ↦ h.fallback | some v ↦ v ]

-- var entry = self.getInterfaceObject(name), and the assignments to its attributes
unfoldable pub with_interface : Network → String → (Interface → Interface) → Network
unfolding get_interface_object
with_interface net name change =
    let (entry, net') = get_interface_object net name in
    record net' { interfaces = put name (change entry) net'.interfaces }

-- ifnames[0]
unfoldable pub first_name : List String → Option String
first_name [] = none
first_name (n ∷ l) = some n

-- The layer 3 and the layer 2 device of a configured interface.
unfoldable pub l3_device : Bool → Bool → String → String → List String → Option String
unfolding first_name
l3_device virtual bridge proto name ifnames =
    if virtual
    then some (append proto (append "-" name))
    else if bridge
    then some (append "br-" name)
    else first_name ifnames

unfoldable pub l2_device : Bool → Bool → String → List String → Option String
unfolding first_name
l2_device virtual bridge name ifnames =
    if virtual then none else if bridge then some (append "br-" name) else first_name ifnames

-- s.type == 'bridge', for an option `type`
unfoldable pub has_bridge_type : Section → Bool
unfolding text_option
has_bridge_type s = elim (text_option s "type") [ none ↦ false | some t ↦ str_eq t "bridge" ]

unfoldable pub configure : Handlers → State → Dict Device → Section → String → Interface → Interface
unfolding handler_name is_virtual l3_device l2_device has_bridge_type wifi_ports
configure h st devices s proto entry =
    let ifnames = to_array (lookup "ifname" s.options) ++ wifi_ports st entry.name devices in
    let virtual = is_virtual h proto in
    record entry {
      proto = handler_name h proto;
      sid = some s.name;
      l3dev = l3_device virtual (has_bridge_type s) proto entry.name ifnames;
      l2dev = l2_device virtual (has_bridge_type s) entry.name ifnames;
    }

-- The loop over the sections of the package network.
unfoldable pub configure_all : Handlers → State → List Section → Network → Network
unfolding text_option with_interface configure
configure_all h st [] net = net
configure_all h st (s ∷ l) net =
    if str_eq s.type "interface" && not s.anonymous
    then (elim (text_option s "proto") [
      | none ↦ configure_all h st l net
      | some proto ↦
          configure_all h st l (with_interface net s.name (configure h st net.devices s proto))
    ])
    else configure_all h st l net

-- An interface without section takes its devices from the router.
unfoldable pub adopt : Handlers → IfaceState → Interface → Interface
unfolding handler_name
adopt h i entry = elim entry.sid [
  | some sid ↦ entry
  | none ↦ record entry { proto = handler_name h i.proto; l2dev = i.device; l3dev = i.l3_device }
]

unfoldable pub adopt_all : Handlers → List IfaceState → Network → Network
unfolding with_interface adopt
adopt_all h [] net = net
adopt_all h (i ∷ l) net = adopt_all h l (with_interface net i.name (adopt h i))

-- loadInterfacesCallback(), with the store, whose created sections `sections` numbers
unfoldable pub load_interfaces : Handlers → List IfaceState → State → Network → Network × State
unfolding configure_all adopt_all
load_interfaces h states st net =
    let (configured, st') = sections st "network" none in
    (adopt_all h states (configure_all h st' configured net), st')
