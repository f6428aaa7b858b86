-- ===== src/Network/Objects/Frame.antt =====
-- What the making of an object changes.
use text.Mathlib.Text.{◌==◌}
use xluci.Prelude.{String, some, ◌≡◌, arith, eq_iff, if◌then◌else◌, inl, inr, Option-cases}
use xluci.Prelude.Dict.{lookup, lookup-put}
use xluci.Network.Objects.{Device, Network, new_device, get_device_object}

lookup-get_device_object :
    (net : Network) (ifname k : String)
    → lookup k (get_device_object net ifname).1.devices
      ≡ (if ifname == k then some (get_device_object net ifname).0 else lookup k net.devices)
unfolding get_device_object
lookup-get_device_object net ifname k = elim (Option-cases (lookup ifname net.devices)) [
  | inl e ↦ ground (arith, e, eq_iff ifname k, lookup-put ifname k (new_device ifname) net.devices)
  | inr (d, e) ↦ ground (arith, e, eq_iff ifname k)
]

old_object :
    (net : Network) (ifname : String) (d : Device)
    → lookup ifname net.devices ≡ some d
    → (get_device_object net ifname).0 ≡ d
unfolding get_device_object
old_object net ifname d e = ground (arith, e)

pub name_of_object :
    (net : Network) (ifname : String)
    → ((k : String) (d : Device) → lookup k net.devices ≡ some d → d.ifname ≡ k)
    → (get_device_object net ifname).0.ifname ≡ ifname
unfolding get_device_object new_device
name_of_object net ifname names = elim (Option-cases (lookup ifname net.devices)) [
  | inl e ↦ ground (arith, e)
  | inr (d, e) ↦ ground (arith, e, names ifname d e)
]

pub names_after :
    (net : Network) (ifname : String)
    → ((k : String) (d : Device) → lookup k net.devices ≡ some d → d.ifname ≡ k)
    → (k : String) (d : Device) → lookup k (get_device_object net ifname).1.devices ≡ some d
    → d.ifname ≡ k
names_after net ifname names k d e = ground (
  arith,
  e,
  eq_iff ifname k,
  lookup-get_device_object net ifname k,
  name_of_object net ifname names,
  names k d,
)

-- `getDeviceObject(ifname)` returns the object that is stored under the name afterwards; it is the
-- one that was there, if there was one, and every other object stays. Where the objects were stored
-- under their own names, they are so afterwards.
pub get_device_object_lem :
    (net : Network) (ifname : String)
    → ((k : String) (d : Device) → lookup k net.devices ≡ some d → d.ifname ≡ k)
    → ((k : String)
        → lookup k (get_device_object net ifname).1.devices
          ≡ (if ifname == k then some (get_device_object net ifname).0 else lookup k net.devices))
      × ((d : Device) → lookup ifname net.devices ≡ some d → (get_device_object net ifname).0 ≡ d)
      × ((k : String) (d : Device)
          → lookup k (get_device_object net ifname).1.devices ≡ some d
          → d.ifname ≡ k)
get_device_object_lem net ifname names = (
  lookup-get_device_object net ifname,
  λ d e. old_object net ifname d e,
  λ k d e. names_after net ifname names k d e,
)
