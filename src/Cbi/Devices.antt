-- ===== src/Cbi/Devices.antt =====
-- The `save` of `DeviceList` of cbi.js, with `setDevices` of an interface of network.js, on the store and
-- the tables of Network.
use text.Mathlib.Text.{◌==◌ as str_eq}
use xluci.Prelude.{
  String, Bool, true, false, Option, none, some, List, [], ◌∷◌, ◌==◌, length, map, if◌then◌else◌,
}
use xluci.Prelude.Dict.{lookup}
use xluci.Uci.Store.{Value, str, list, State}
use xluci.Network.Objects.{Device, Interface, Network, get_device}
use xluci.Network.Status.{is_bridge}
use xluci.Network.Attach.{remove_from_interface, attach_to_interface}
use xluci.Cbi.Js.{Js}
use xluci.Cbi.Run.{Run, returns, throws}
use xluci.Cbi.Field.{Field, Page}
use xluci.Cbi.Value.{formvalue, is_disabled}

-- getSubdevices(), of an interface whose layer 2 device is the bridge; a port may have no object
unfoldable pub subdevices : Network → Device → List (Option Device)
unfolding get_device
subdevices net dev = elim dev.ports [
  | none ↦ []
  | some ports ↦ map (λ n. get_device net (some n)) ports
]

-- The devices of the interface before `setDevices`.
unfoldable pub old_devices : Network → Interface → List (Option Device)
unfolding get_device is_bridge subdevices
old_devices net ifc = elim (get_device net ifc.l2dev) [
  | none ↦ []
  | some dev ↦ if is_bridge dev then subdevices net dev else some dev ∷ []
]

-- !dev
unfoldable pub is_missing : Option String → Bool
is_missing none = true
is_missing (some n) = str_eq n ""

-- Whether an old device has another name than the new one at its place, in lists of one length; `none`
-- where it throws, at a device without object.
unfoldable pub devices_differ : List (Option Device) → List (Option String) → Option Bool
unfolding is_missing
devices_differ (o ∷ olds) (n ∷ devs) =
    let rest = devices_differ olds devs in
    if is_missing n then some true else (elim o [
      | none ↦ none
      | some dev ↦ elim n [
        | none ↦ some true
        | some name ↦ if str_eq dev.ifname name then rest else some true
      ]
    ])
devices_differ _ _ = some false

unfoldable pub attach_all : Network → Interface → List (Option String) → State → State
unfolding get_device attach_to_interface
attach_all net ifc [] st = st
attach_all net ifc (n ∷ devs) st = elim (get_device net n) [
  | none ↦ attach_all net ifc devs st
  | some dev ↦ attach_all net ifc devs (attach_to_interface st dev ifc)
]

-- The old devices are removed, then the new ones attached.
unfoldable pub replace_devices :
    Network → Interface → List (Option Device) → List (Option String) → State → Run
unfolding remove_from_interface attach_all
replace_devices net ifc [] devs st = returns (attach_all net ifc devs st)
replace_devices net ifc (none ∷ olds) devs st = throws st
replace_devices net ifc (some dev ∷ olds) devs st =
    replace_devices net ifc olds devs (remove_from_interface st dev ifc)

-- setDevices(devs), of names that may be undefined
unfoldable pub set_devices : Network → Interface → List (Option String) → State → Run
unfolding old_devices devices_differ replace_devices
set_devices net ifc devs st =
    let olds = old_devices net ifc in
    let replaced = replace_devices net ifc olds devs st in
    if length olds == length devs
    then (elim (devices_differ olds devs) [
      | none ↦ throws st
      | some changed ↦ if changed then replaced else returns st
    ])
    else replaced

-- $.isArray(ifnames) ? ifnames : [ ifnames ], of what `formvalue` of a list of networks returns
unfoldable pub name_list : Option Value → List (Option String)
name_list (some (list l)) = map (λ n. some n) l
name_list (some (str n)) = some n ∷ []
name_list _ = none ∷ []

-- DeviceList.save(sid), of a field that reads its inputs as a list of networks does
unfoldable pub device_list_save :
    Js → Page → String → String → Network → Field → String → State → Run
unfolding is_disabled formvalue name_list set_devices
device_list_save js page conf type net f sid st = elim (is_disabled f sid) [
  | none ↦ throws st
  | some true ↦ returns st
  | some false ↦ elim (lookup sid net.interfaces) [
    | none ↦ returns st
    | some ifc ↦ set_devices net ifc (name_list (formvalue js page conf type st f sid)) st
  ]
]
