-- ===== src/Network/Attach/Removed.antt =====
-- The devices of an interface after `removeFromInterface`.
use text.Mathlib.Text.{◌==◌}
use xluci.Prelude.{
  String, true, false, some, List, ◌≡◌, refl, ◌∙◌, ap, arith, eq_iff, Bool-cases, inl, inr,
  if◌then◌else◌,
}
use xluci.Uci.Store.{list, State, is_meta, filter_array}
use xluci.Uci.Access.{set_option, contains}
use xluci.Uci.Access.ReadWrite.{writable}
use xluci.Uci.Access.Stored.{get_option-set_self, stored-list}
use xluci.Uci.Access.Deletions.{contains-filter_array}
use xluci.Convert.{to_array}
use xluci.Network.Objects.{Device, Interface}
use xluci.Network.Attach.{interface_names, remove_name, remove_from_interface}

interface_names-set :
    (st : State) (iface : Interface) (l : List String)
    → writable st "network" iface.name ≡ true
    → interface_names (set_option st "network" iface.name "ifname" (some (list l))) iface ≡ l
unfolding interface_names to_array is_meta
interface_names-set st iface l w = ap to_array (
    get_option-set_self st "network" iface.name "ifname" (some (list l)) refl w
    ∙ stored-list st "network" iface.name l)

-- After `removeFromInterface` of a wired device from an interface whose section may be written, the
-- interface has the devices that it had, but this one.
pub contains-remove_from_interface :
    (st : State) (dev : Device) (iface : Interface) (y : String)
    → writable st "network" iface.name ≡ true
    → (dev.kind == "wifi") ≡ false
    → contains (interface_names (remove_from_interface st dev iface) iface) y
      ≡ (if dev.ifname == y then false else contains (interface_names st iface) y)
unfolding remove_from_interface remove_name
contains-remove_from_interface st dev iface y w wired =
    let ifnames = interface_names st iface in
    elim (Bool-cases (contains ifnames dev.ifname)) [
      | inl e ↦ rw wired (
          rw e (
            rw (interface_names-set st iface (filter_array ifnames dev.ifname) w)
              (contains-filter_array ifnames dev.ifname y)))
      | inr ne ↦ rw wired (rw ne (ground (arith, ne, eq_iff dev.ifname y)))
    ]
