-- ===== src/Tests/Attached.antt =====
-- A device that leaves an interface, at a concrete state.
use xluci.Prelude.{false, true, none, some, [], ◌∷◌, ◌≡◌, refl}
use xluci.Prelude.Dict.{lookup, lookup2}
use xluci.Uci.Store.{str, Section, State}
use xluci.Uci.Access.{contains}
use xluci.Uci.Access.ReadWrite.{writable}
use xluci.Network.Objects.{Device, Interface}
use xluci.Network.Attach.{interface_names, remove_from_interface}
use xluci.Network.Attach.Removed.{contains-remove_from_interface}

abbrev lan_section : Section
lan_section = record {
  type = "interface";
  name = "lan";
  create = none;
  anonymous = false;
  index = 0;
  options = ("ifname", str "eth0 eth1") ∷ [];
}

abbrev st : State
st = record {
  newidx = 0;
  values = ("network", ("lan", lan_section) ∷ []) ∷ [];
  creates = [];
  changes = [];
  deletes = [];
  reorder = [];
}

abbrev eth0 : Device
eth0 = record {
  ifname = "eth0";
  kind = "ethernet";
  type = 1;
  up = true;
  sid = none;
  ports = none;
  vlan = none;
  wifi = none;
}

abbrev lan : Interface
lan = record { name = "lan"; proto = "static"; sid = some "lan"; l3dev = none; l2dev = none }

contains-remove_from_interface_example :
    contains (interface_names (remove_from_interface st eth0 lan) lan) "eth0" ≡ false
unfolding writable lookup lookup2
contains-remove_from_interface_example = contains-remove_from_interface st eth0 lan "eth0" refl refl
