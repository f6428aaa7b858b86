-- ===== src/Tests/Radios.antt =====
-- Radios and devices that are loaded.
use xluci.Prelude.{
  ℕ, String, true, false, Option, none, some, List, [], ◌∷◌, map, ◌≡◌, ◌↔◌, refl, arith, length,
}
use xluci.Prelude.Dict.{Dict, lookup, put}
use xluci.Uci.Access.{is_some, contains}
use xluci.Convert.{to_array}
use xluci.Uci.Store.{str, Section, State, init, field, is_meta}
use xluci.Uci.Sections.{
  sections, gather, base_items, created_items, insert, sort, number, write_back, wanted, overlay,
  extended, entry, or_empty,
}
use xluci.Network.Objects.{
  Device, Network, get_device_object, new_device, is_alias_name, get_interface_object,
  new_interface, at_key,
}
use xluci.Network.Alias.{Outcome, found, out_of_fuel, resolve_alias, follow, behind}
use xluci.Network.Load.Interfaces.{
  Handlers, handler_name, is_virtual, with_interface, first_name, l3_device, l2_device,
  has_bridge_type, configure, configure_all, adopt, adopt_all, load_interfaces,
}
use xluci.Network.Alias.Ends.{Ends}
use xluci.Network.Load.{
  Cache, Numbers, is_blacklisted, numbered, strip, all_digits, is_station, station_end, with_device,
  make_devices, add_device_section, add_interface_section, add_alias, text_option, add_state,
  load_states, kind_of, is_tunnel_type, add_entry, load_entries,
}
use xluci.Network.Load.Config.{
  add_network_section, has_option, is_bridge_section, wifi_ports, add_network_sections,
  add_wifi_sections, add_bridges, load_devices,
}
use xluci.Network.Load.Tables.{Refresh, interface_status, load_network, refresh, refreshes}
use xluci.Network.Load.Tables.Aliases.{resolve_alias-loaded}
use xluci.Wireless.Cache.{Answer, answers, start}
use xluci.Wireless.Cache.Resolved.{last_given, load_cache-resolved}
use xluci.Wireless.Status.{Reply, Phy, phy_at, wireless_status}
use xluci.Wireless.Status.Grouped.{device_names, devices_of, wireless_status-grouped}

-- What the loading computes with.
program : Unit {0}
unfolding lookup put is_some contains init sections gather base_items created_items insert sort
    number write_back wanted overlay extended entry or_empty get_device_object new_device
    is_alias_name is_blacklisted numbered strip all_digits is_station station_end with_device
    add_state load_states kind_of is_tunnel_type add_entry load_entries add_network_sections
    add_wifi_sections add_bridges load_devices field is_meta resolve_alias follow behind
    handler_name is_virtual with_interface first_name l3_device l2_device has_bridge_type configure
    configure_all adopt adopt_all load_interfaces make_devices add_device_section
    add_interface_section add_alias text_option add_network_section has_option is_bridge_section
    wifi_ports get_interface_object new_interface at_key load_network refresh refreshes to_array
program = tt

abbrev reply : Answer ℕ
reply = record {
  freqlist = record { channel = 1; mhz = 2412; restricted = false } ∷ [];
  txpwrlist = 0;
  countrylist = 0;
  info = some (record { hwmodes = "n" ∷ []; htmodes = "HT20" ∷ []; country = none });
}

abbrev silent : Answer ℕ
silent = record reply { info = none }

abbrev replies : List (String × Answer ℕ)
replies = ("radio0", silent) ∷ ("radio1", reply) ∷ []

-- Of two radios the first has no status: the load is done with the answer of the second.
load_cache-resolved_example :
    ((answers replies (start 2)).resolved ≡ true)
    ↔ ((length replies ≡ 2) × (last_given replies ≡ true))
load_cache-resolved_example = load_cache-resolved 2 replies (omega arith)

abbrev statuses : List (Reply ℕ)
statuses =
    record { phy = "phy0"; device = "wlan0"; attributes = ("signal", 70) ∷ [] }
    ∷ record { phy = "phy1"; device = "wlan1"; attributes = [] }
    ∷ record { phy = "phy0"; device = "wlan0.sta1"; attributes = [] }
    ∷ []

wireless_status-grouped_example :
    (rv : Dict (Phy ℕ)) × (wireless_status (map some statuses) ≡ some rv)
    × ((p : String) → device_names (phy_at p rv).networks ≡ devices_of p statuses)
wireless_status-grouped_example = wireless_status-grouped statuses

abbrev cache : Cache
cache = record {
  devstate = record { name = "eth0"; up = true; type = "Network device" } ∷ [];
  devlist = [];
  swstate = [];
  wifistate = [];
}

abbrev digits : Numbers
digits = record { parse_int = λ s. none; text_of = λ n. "0" }

abbrev wan : Section
wan = record {
  type = "interface";
  name = "wan";
  create = none;
  anonymous = false;
  index = 0;
  options = ("proto", str "static") ∷ ("ifname", str "eth0") ∷ [];
}

-- The sections wan on eth0, guest on the alias @wan, and two that are aliases of each other.
abbrev stored : State
stored = record init {
  values =
      (
        "network",
        ("wan", wan)
            ∷ (
              "guest",
              record wan {
                name = "guest";
                index = 1;
                options = ("proto", str "static") ∷ ("ifname", str "@wan") ∷ [];
              },
            )
            ∷ (
              "a",
              record wan {
                name = "a";
                index = 2;
                options = ("proto", str "static") ∷ ("ifname", str "@b") ∷ [];
              },
            )
            ∷ (
              "b",
              record wan {
                name = "b";
                index = 3;
                options = ("proto", str "static") ∷ ("ifname", str "@a") ∷ [];
              },
            )
            ∷ [],
      )
      ∷ [];
}

abbrev handlers : Handlers
handlers = record { named = ("static", false) ∷ []; fallback = false }

abbrev later : List Refresh
later = interface_status [] stored ∷ []

abbrev loaded_net : Network
loaded_net = refreshes digits handlers (load_network digits handlers cache [] stored).0 later

abbrev ifname_of : Outcome → Option String
ifname_of (found (some d)) = some d.ifname
ifname_of (found none) = none
ifname_of out_of_fuel = none

-- The alias @guest leads by @wan to eth0, and those in a circle lead nowhere.
behind_guest : ifname_of (resolve_alias 9 loaded_net "@guest") ≡ some "eth0"
unfolding program
behind_guest = refl

circle : resolve_alias 9 loaded_net "@a" ≡ found none
unfolding program
circle = refl

resolve_alias-loaded_example :
    (r : Option Device) × (resolve_alias 9 loaded_net "@guest" ≡ found r)
    × ((f : Device) → (r ≡ some f) ↔ Ends loaded_net "@guest" f)
unfolding program
resolve_alias-loaded_example =
    resolve_alias-loaded digits handlers cache [] stored later 9 "@guest" (omega arith)
