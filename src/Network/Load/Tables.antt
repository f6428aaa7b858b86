-- ===== src/Network/Load/Tables.antt =====
-- The tables of network.js: `load` fills them, and the refreshes load them again.
pub mod Aliases
use xluci.Prelude.{List, [], ◌∷◌}
use xluci.Uci.Store.{State}
use xluci.Network.Objects.{Network}
use xluci.Network.Load.{Cache, Numbers}
use xluci.Network.Load.Config.{load_devices}
use xluci.Network.Load.Interfaces.{Handlers, IfaceState, load_interfaces}

abbrev pub empty : Network
empty = record { devices = []; interfaces = [] }

-- load(), once the cache is filled, with the store
unfoldable pub load_network : Numbers → Handlers → Cache → List IfaceState → State → Network × State
unfolding load_devices load_interfaces
load_network js h cache states st =
    let (net, st') = load_devices js cache st empty in load_interfaces h states st' net

-- refreshInterfaceStatus() and refreshDeviceStatus(), with what the cache and the store are when their
-- callbacks run; those of refreshStatus() are that of the second and then that of the first.
pub data Refresh : Type 0 where
  interface_status : List IfaceState → State → Refresh
  device_status : Cache → State → Refresh

unfoldable pub refresh : Numbers → Handlers → Network → Refresh → Network
unfolding load_devices load_interfaces
refresh js h net (interface_status states st) = (load_interfaces h states st net).0
refresh js h net (device_status cache st) = (load_devices js cache st net).0

unfoldable pub refreshes : Numbers → Handlers → Network → List Refresh → Network
unfolding refresh
refreshes js h net [] = net
refreshes js h net (r ∷ l) = refreshes js h (refresh js h net r) l
