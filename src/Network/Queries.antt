-- ===== src/Network/Queries.antt =====
-- The lists that network.js makes of its objects: `getDevices`, `getInterfaces`,
-- `getInterfacesByDevice` and `getProtocols`.
pub mod Members
use text.Mathlib.Text.{◌==◌}
use xluci.Prelude.{
  String, Bool, true, false, ◌||◌, not, Option, none, some, List, [], ◌∷◌, if◌then◌else◌,
}
use xluci.Prelude.Dict.{Dict, lookup, keys}
use xluci.Uci.Save.{str_leb}
use xluci.Network.Objects.{Device, Interface, Network, get_device_object}

module _ {A : Type 0} where
  -- The values of the keys of a map that pass a test.
  unfoldable pub collect : Dict A → (String → A → Bool) → List String → List A
  collect d test [] = []
  collect d test (k ∷ ks) =
      let rest = collect d test ks in
      elim (lookup k d) [ none ↦ rest | some a ↦ if test k a then a ∷ rest else rest ]

  -- A stable sort by keys: `key a` is the text that the comparison reads.
  unfoldable pub insert_by : (A → String) → A → List A → List A
  insert_by key a [] = a ∷ []
  insert_by key a (b ∷ l) = if str_leb (key a) (key b) then a ∷ b ∷ l else b ∷ insert_by key a l

  unfoldable pub sort_by : (A → String) → List A → List A
  unfolding insert_by
  sort_by key [] = []
  sort_by key (a ∷ l) = insert_by key a (sort_by key l)

-- getDevices(). The comparison is by kind only: its second step compares the property `name`, and a
-- device object has none.
unfoldable pub get_devices : Network → List Device
unfolding collect sort_by
get_devices net =
    sort_by (λ d. d.kind)
      (collect net.devices (λ ifname d. not (ifname == "lo")) (keys net.devices))

-- createDevice(name)
unfoldable pub create_device : Network → String → Device × Network
create_device net name = get_device_object net name

-- getInterface(iface)
unfoldable pub get_interface : Network → String → Option Interface
get_interface net iface = lookup iface net.interfaces

-- getInterfaces()
unfoldable pub get_interfaces : Network → List Interface
unfolding collect sort_by
get_interfaces net =
    sort_by (λ i. i.name)
      (collect net.interfaces (λ name i. not (name == "loopback")) (keys net.interfaces))

-- o == dev, where o may be undefined
unfoldable pub is_device : String → Option String → Bool
is_device dev none = false
is_device dev (some o) = o == dev

-- iface.l2dev == dev || iface.l3dev == dev
unfoldable pub attached : String → Interface → Bool
unfolding is_device
attached dev i = is_device dev i.l2dev || is_device dev i.l3dev

-- getInterfacesByDevice(dev)
unfoldable pub get_interfaces_by_device : Network → String → List Interface
unfolding collect sort_by attached
get_interfaces_by_device net dev =
    sort_by (λ i. i.name) (collect net.interfaces (λ name i. attached dev i) (keys net.interfaces))

-- What a handler of a protocol says of it, and the entry of `getProtocols`.
pub record Handler : Type 0 where
  pub description : String
  pub virtual : Bool
  pub tunnel : Bool

unfoldable pub protocols : Dict Handler → List (String × Handler)
protocols [] = []
protocols ((proto, pr) ∷ handlers) = (proto, pr) ∷ protocols handlers

-- getProtocols()
unfoldable pub get_protocols : Dict Handler → List (String × Handler)
unfolding protocols sort_by
get_protocols handlers = sort_by (λ p. p.0) (protocols handlers)
