-- ===== src/Network/Load/Config.antt =====
-- The part of `loadDevicesCallback` of network.js that reads the configuration, and the whole of it.
use Prim.Native.String.{◌++◌ as append}
use text.Mathlib.Text.{◌==◌ as str_eq}
use Prim.Native.Char.{code}
use xluci.Prelude.{
  ℕ, suc, ◌+◌, String, Bool, true, false, not, ◌&&◌, Option, none, some, List, [], ◌∷◌, ◌++◌, ◌==◌,
  leb, if◌then◌else◌,
}
use xluci.Prelude.Dict.{Dict, lookup, put}
use xluci.Convert.{to_array}
use xluci.Uci.Store.{str, Section, State}
use xluci.Uci.Access.{contains, get_option}
use xluci.Uci.Sections.{sections}
use xluci.Uci.Save.{insert_name}
use xluci.Network.Objects.{Device, Network}
use xluci.Network.Load.{
  Cache, WifiNet, Numbers, with_device, load_states, load_entries, text_option, add_device_section,
  add_interface_section, only_tu,
}

-- a || b
unfoldable pub or_text : Option String → Option String → Option String
or_text none b = b
or_text (some a) b = some a

-- s.ifname
unfoldable pub has_option : Section → String → Bool
has_option s key = elim (lookup key s.options) [
  | none ↦ false
  | some (str t) ↦ not (str_eq t "")
  | some v ↦ true
]

module _ (js : Numbers) where
  -- port == sw.cpu_port
  unfoldable pub is_cpu_port : Option ℕ → ℕ → Bool
  is_cpu_port none cpu = false
  is_cpu_port (some p) cpu = p == cpu

  -- The name of the device of a vlan: at the first port that is the one of the processor.
  unfoldable pub vlan_ifname : List String → ℕ → ℕ → Option String
  unfolding only_tu is_cpu_port
  vlan_ifname [] cpu vid = none
  vlan_ifname (p ∷ ports) cpu vid =
      let rest = vlan_ifname ports cpu vid in
      if is_cpu_port (js.parse_int p) cpu
      then some (if str_eq (only_tu p) "t" then append "eth0." (js.text_of vid) else "eth0")
      else rest

  -- parseInt(s.vid || s.vlan)
  unfoldable pub vlan_id : Section → Option ℕ
  unfolding text_option or_text
  vlan_id s = elim (or_text (text_option s "vid") (text_option s "vlan")) [
    | none ↦ none
    | some t ↦ js.parse_int t
  ]

  unfoldable pub add_vlan : Section → String → ℕ → Device → Device
  add_vlan s switch vid entry = record entry {
    kind = "vlan";
    sid = some s.name;
    vlan = some (switch, vid);
  }

  -- A section of the type switch_vlan of the switch.
  unfoldable pub add_vlan_section : Cache → Section → String → Network → Network
  unfolding vlan_id vlan_ifname with_device add_vlan
  add_vlan_section cache s switch net = elim (lookup switch cache.swstate) [
    | none ↦ net
    | some cpu ↦ elim (vlan_id s) [
      | none ↦ net
      | some vid ↦ elim (vlan_ifname (to_array (lookup "ports" s.options)) cpu vid) [
        | none ↦ net
        | some ifname ↦ with_device net ifname (add_vlan s switch vid)
      ]
    ]
  ]

  -- A section of the package network; the tests of its type exclude each other.
  unfoldable pub add_network_section : Cache → Section → Network → Network
  unfolding text_option has_option add_device_section add_interface_section add_vlan_section
      with_device
  add_network_section cache s net =
      if str_eq s.type "device"
      then (elim (text_option s "name") [
        | none ↦ net
        | some n ↦ with_device net n (add_device_section s)
      ])
      else if str_eq s.type "interface"
      then (if not s.anonymous && has_option s "ifname" then add_interface_section s net else net)
      else if str_eq s.type "switch_vlan"
      then (elim (text_option s "device") [
        | none ↦ net
        | some switch ↦ add_vlan_section cache s switch net
      ])
      else net

  unfoldable pub add_network_sections : Cache → List Section → Network → Network
  unfolding add_network_section
  add_network_sections cache [] net = net
  add_network_sections cache (s ∷ l) net =
      add_network_sections cache l (add_network_section cache s net)

  -- s.device.replace(/^[^0-9]+/, '')
  unfoldable pub from_digit : String → String
  from_digit String.[] = String.[]
  from_digit (String.◌∷◌ c s) =
      let rest = from_digit s in
      if leb b'0' (code c) && leb (code c) b'9' then String.◌∷◌ c s else rest

  -- parseInt(…) || 0, which `%d` prints
  unfoldable pub radio_number : String → String
  unfolding from_digit
  radio_number device = elim (js.parse_int (from_digit device)) [
    | none ↦ js.text_of 0
    | some r ↦ js.text_of r
  ]

  -- 'radio%d.network%d'
  unfoldable pub wifi_id : String → ℕ → String
  unfolding radio_number
  wifi_id device n =
      append "radio" (append (radio_number device) (append ".network" (js.text_of n)))

  -- The name that the router gives to the network of the section, else its id.
  unfoldable pub wifi_ifname : List WifiNet → String → String → String
  wifi_ifname [] sid id = id
  wifi_ifname (n ∷ l) sid id =
      let rest = wifi_ifname l sid id in
      if str_eq n.section sid
      then (elim n.ifname [ none ↦ rest | some i ↦ if str_eq i "" then rest else i ])
      else rest

  unfoldable pub add_wifi : Section → String → String → Device → Device
  add_wifi s device id entry = record entry {
    kind = "wifi";
    sid = some s.name;
    wifi = some (record {
      wid = id;
      wdev = device;
      wmode = lookup "mode" s.options;
      wssid = lookup "ssid" s.options;
      wbssid = lookup "bssid" s.options;
    });
  }

  unfoldable pub or_zero : Option ℕ → ℕ
  or_zero none = 0
  or_zero (some n) = n

  unfoldable pub nets_of : Cache → String → List WifiNet
  nets_of cache device = elim (lookup device cache.wifistate) [ none ↦ [] | some l ↦ l ]

  -- The loop over the package wireless: `c` counts the sections of the type wifi-iface, `count` those of
  -- each radio.
  unfoldable pub add_wifi_sections : Cache → ℕ → Dict ℕ → List Section → Network → Network
  unfolding text_option or_zero wifi_id nets_of wifi_ifname with_device add_wifi
  add_wifi_sections cache c count [] net = net
  add_wifi_sections cache c count (s ∷ l) net =
      if str_eq s.type "wifi-iface"
      then (elim (text_option s "device") [
        | none ↦ add_wifi_sections cache (suc c) count l net
        | some device ↦
            let n = or_zero (lookup device count) + 1 in
            let id = wifi_id device n in
            let sid = append "@wifi-iface[" (append (js.text_of c) "]") in
            add_wifi_sections cache (suc c) (put device n count) l
              (with_device net (wifi_ifname (nets_of cache device) sid id) (add_wifi s device id))
      ])
      else add_wifi_sections cache c count l net

-- The wireless devices whose sections are in the network, in the order of the objects.
unfoldable pub wifi_ports : State → String → Dict Device → List String
unfolding contains
wifi_ports st sid [] = []
wifi_ports st sid ((ifname, dev) ∷ devices) =
    let rest = wifi_ports st sid devices in
    if str_eq dev.kind "wifi"
    then (elim dev.sid [
      | none ↦ rest
      | some w ↦
          if contains (to_array (get_option st "wireless" w "network")) sid
          then ifname ∷ rest
          else rest
    ])
    else rest

-- ifnames.sort()
unfoldable pub sort_names : List String → List String
sort_names [] = []
sort_names (n ∷ l) = insert_name n (sort_names l)

unfoldable pub add_bridge : Section → List String → Device → Device
add_bridge s ports entry = record entry {
  type = 1;
  kind = "bridge";
  sid = some s.name;
  ports = some ports;
}

-- s.type == 'bridge', for an option `type`
unfoldable pub is_bridge_section : Section → Bool
unfolding text_option
is_bridge_section s =
    if str_eq s.type "interface" && not s.anonymous
    then (elim (text_option s "type") [ none ↦ false | some t ↦ str_eq t "bridge" ])
    else false

-- The last loop: the bridges with their ports.
unfoldable pub add_bridges : State → List Section → Network → Network
unfolding is_bridge_section sort_names wifi_ports with_device add_bridge
add_bridges st [] net = net
add_bridges st (s ∷ l) net =
    let ports =
      sort_names (to_array (lookup "ifname" s.options) ++ wifi_ports st s.name net.devices) in
    add_bridges st l (
      if is_bridge_section s
      then with_device net (append "br-" s.name) (add_bridge s ports)
      else net)

-- loadDevicesCallback(), with the store, whose created sections `sections` numbers
unfoldable pub load_devices : Numbers → Cache → State → Network → Network × State
unfolding load_states load_entries add_network_sections add_wifi_sections add_bridges
load_devices js cache st net =
    let (configured, st1) = sections st "network" none in
    let (wifi, st2) = sections st1 "wireless" none in
    let states = load_entries cache.devlist (load_states cache.devstate net) in
    let made = add_network_sections js cache configured states in
    let all = add_wifi_sections js cache 0 [] wifi made in (add_bridges st2 configured all, st2)
