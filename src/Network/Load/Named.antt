-- ===== src/Network/Load/Named.antt =====
-- The objects that `loadDevicesCallback` makes are stored under their own names.
use Prim.Native.String.{◌++◌ as append}
use text.Mathlib.Text.{◌==◌}
use xluci.Prelude.{
  ℕ, suc, ◌+◌, String, not, ◌&&◌, none, List, [], ◌∷◌, ◌++◌, ◌≡◌, refl, arith, eq_iff, inl, inr,
  Option-cases, Bool-cases,
}
use xluci.Prelude.Dict.{Dict, lookup, put, lookup-put}
use xluci.Convert.{to_array}
use xluci.Uci.Store.{Section, State}
use xluci.Uci.Sections.{sections}
use xluci.Network.Objects.{Device, Network, get_device_object}
use xluci.Network.Objects.Frame.{names_after, name_of_object}
use xluci.Network.Alias.Chain.{NamesMatch}
use xluci.Network.Load.{
  Cache, DevState, DevEntry, Numbers, is_blacklisted, with_device, add_state, add_entry,
  load_states, load_entries, text_option, make_devices, add_device_section, add_interface_section,
  add_alias,
}
use xluci.Network.Load.Config.{
  has_option, vlan_id, vlan_ifname, add_vlan, add_vlan_section, add_network_section,
  add_network_sections, or_zero, wifi_id, wifi_ifname, nets_of, add_wifi, add_wifi_sections,
  sort_names, wifi_ports, add_bridge, is_bridge_section, add_bridges, load_devices,
}

with_device-NamesMatch :
    (net : Network) (ifname : String) (change : Device → Device)
    → ((d : Device) → (change d).ifname ≡ d.ifname)
    → NamesMatch net
    → NamesMatch (with_device net ifname change)
unfolding with_device
with_device-NamesMatch net ifname change same names k d e =
    let entry = (get_device_object net ifname).0 in
    ground (
      arith,
      e,
      eq_iff ifname k,
      lookup-put ifname k (change entry) (get_device_object net ifname).1.devices,
      same entry,
      name_of_object net ifname names,
      names_after net ifname names k d,
    )

load_states-NamesMatch :
    (l : List DevState) (net : Network) → NamesMatch net → NamesMatch (load_states l net)
unfolding load_states add_state
load_states-NamesMatch [] net h = h
load_states-NamesMatch (s ∷ l) net h = elim (Bool-cases (is_blacklisted s.name)) [
  | inl e ↦ rw (e, load_states) (load_states-NamesMatch l net h)
  | inr e ↦
      rw (e, load_states)
        (load_states-NamesMatch l (with_device net s.name (add_state s))
          (with_device-NamesMatch net s.name (add_state s) (λ d. refl) h))
]

load_entries-NamesMatch :
    (l : List DevEntry) (net : Network) → NamesMatch net → NamesMatch (load_entries l net)
unfolding load_entries add_entry
load_entries-NamesMatch [] net h = h
load_entries-NamesMatch (s ∷ l) net h = elim (Bool-cases (is_blacklisted s.device)) [
  | inl e ↦ rw (e, load_entries) (load_entries-NamesMatch l net h)
  | inr e ↦
      rw (e, load_entries)
        (load_entries-NamesMatch l (with_device net s.device (add_entry s))
          (with_device-NamesMatch net s.device (add_entry s) (λ d. refl) h))
]

make_devices-NamesMatch :
    (l : List String) (net : Network) → NamesMatch net → NamesMatch (make_devices l net)
unfolding make_devices
make_devices-NamesMatch [] net h = h
make_devices-NamesMatch (n ∷ l) net h =
    make_devices-NamesMatch l (get_device_object net n).1 (names_after net n h)

add_interface_section-NamesMatch :
    (s : Section) (net : Network) → NamesMatch net → NamesMatch (add_interface_section s net)
unfolding add_interface_section add_alias
add_interface_section-NamesMatch s net h =
    let made = make_devices-NamesMatch (to_array (lookup "ifname" s.options)) net h in
    elim (Bool-cases (s.name == "loopback")) [
      | inl e ↦ rw (e, add_interface_section) made
      | inr e ↦
          rw (e, add_interface_section)
            (with_device-NamesMatch (make_devices (to_array (lookup "ifname" s.options)) net)
              (append "@" s.name) (add_alias s) (λ d. refl) made)
    ]

module _ (js : Numbers) (cache : Cache) where
  add_vlan_section-NamesMatch :
      (s : Section) (switch : String) (net : Network)
      → NamesMatch net
      → NamesMatch (add_vlan_section js cache s switch net)
  unfolding add_vlan_section add_vlan
  add_vlan_section-NamesMatch s switch net h = elim (Option-cases (lookup switch cache.swstate)) [
    | inl e ↦ rw (e, add_vlan_section) h
    | inr (cpu, e) ↦ elim (Option-cases (vlan_id js s)) [
      | inl v ↦ rw (e, v, add_vlan_section) h
      | inr (vid, v) ↦
          elim (Option-cases (vlan_ifname js (to_array (lookup "ports" s.options)) cpu vid)) [
            | inl i ↦ rw (e, v, i, add_vlan_section) h
            | inr (ifname, i) ↦
                rw (e, v, i, add_vlan_section)
                  (with_device-NamesMatch net ifname (add_vlan js s switch vid) (λ d. refl) h)
          ]
    ]
  ]

  add_network_section-NamesMatch :
      (s : Section) (net : Network)
      → NamesMatch net
      → NamesMatch (add_network_section js cache s net)
  unfolding add_network_section add_device_section
  add_network_section-NamesMatch s net h = elim (Bool-cases (s.type == "device")) [
    | inl t ↦ elim (Option-cases (text_option s "name")) [
      | inl e ↦ rw (t, e, add_network_section) h
      | inr (n, e) ↦
          rw (t, e, add_network_section)
            (with_device-NamesMatch net n (add_device_section s) (λ d. refl) h)
    ]
    | inr t ↦ elim (Bool-cases (s.type == "interface")) [
      | inl i ↦ elim (Bool-cases (not s.anonymous && has_option s "ifname")) [
        | inl c ↦ rw (t, i, c, add_network_section) (add_interface_section-NamesMatch s net h)
        | inr c ↦ rw (t, i, c, add_network_section) h
      ]
      | inr i ↦ elim (Bool-cases (s.type == "switch_vlan")) [
        | inl v ↦ elim (Option-cases (text_option s "device")) [
          | inl e ↦ rw (t, i, v, e, add_network_section) h
          | inr (switch, e) ↦
              rw (t, i, v, e, add_network_section) (add_vlan_section-NamesMatch s switch net h)
        ]
        | inr v ↦ rw (t, i, v, add_network_section) h
      ]
    ]
  ]

  add_network_sections-NamesMatch :
      (l : List Section) (net : Network)
      → NamesMatch net
      → NamesMatch (add_network_sections js cache l net)
  unfolding add_network_sections
  add_network_sections-NamesMatch [] net h = h
  add_network_sections-NamesMatch (s ∷ l) net h =
      add_network_sections-NamesMatch l (add_network_section js cache s net)
        (add_network_section-NamesMatch s net h)

  add_wifi_sections-NamesMatch :
      (l : List Section) (c : ℕ) (count : Dict ℕ) (net : Network)
      → NamesMatch net
      → NamesMatch (add_wifi_sections js cache c count l net)
  unfolding add_wifi_sections add_wifi
  add_wifi_sections-NamesMatch [] c count net h = h
  add_wifi_sections-NamesMatch (s ∷ l) c count net h = elim (Bool-cases (s.type == "wifi-iface")) [
    | inr t ↦ rw (t, add_wifi_sections) (add_wifi_sections-NamesMatch l c count net h)
    | inl t ↦ elim (Option-cases (text_option s "device")) [
      | inl e ↦ rw (t, e, add_wifi_sections) (add_wifi_sections-NamesMatch l (suc c) count net h)
      | inr (device, e) ↦
          let n = or_zero js (lookup device count) + 1 in
          let id = wifi_id js device n in
          let sid = append "@wifi-iface[" (append (js.text_of c) "]") in
          let ifname = wifi_ifname js (nets_of js cache device) sid id in
          rw (t, e, add_wifi_sections)
            (add_wifi_sections-NamesMatch l (suc c) (put device n count)
              (with_device net ifname (add_wifi js s device id))
              (with_device-NamesMatch net ifname (add_wifi js s device id) (λ d. refl) h))
    ]
  ]

add_bridges-NamesMatch :
    (st : State) (l : List Section) (net : Network)
    → NamesMatch net
    → NamesMatch (add_bridges st l net)
unfolding add_bridges add_bridge
add_bridges-NamesMatch st [] net h = h
add_bridges-NamesMatch st (s ∷ l) net h = elim (Bool-cases (is_bridge_section s)) [
  | inr e ↦ rw (e, add_bridges) (add_bridges-NamesMatch st l net h)
  | inl e ↦
      let ports =
        sort_names (to_array (lookup "ifname" s.options) ++ wifi_ports st s.name net.devices) in
      rw (e, add_bridges)
        (add_bridges-NamesMatch st l (with_device net (append "br-" s.name) (add_bridge s ports))
          (with_device-NamesMatch net (append "br-" s.name) (add_bridge s ports) (λ d. refl) h))
]

-- The callback keeps every device object under its own name.
pub load_devices-NamesMatch :
    (js : Numbers) (cache : Cache) (st : State) (net : Network)
    → NamesMatch net
    → NamesMatch (load_devices js cache st net).0
unfolding load_devices
load_devices-NamesMatch js cache st net h =
    let (configured, st1) = sections st "network" none in
    let (wifi, st2) = sections st1 "wireless" none in
    let states = load_entries cache.devlist (load_states cache.devstate net) in
    let made = add_network_sections js cache configured states in
    add_bridges-NamesMatch st2 configured (add_wifi_sections js cache 0 [] wifi made) (
      add_wifi_sections-NamesMatch js cache wifi 0 [] made (
        add_network_sections-NamesMatch js cache configured states (
          load_entries-NamesMatch cache.devlist (load_states cache.devstate net)
            (load_states-NamesMatch cache.devstate net h))))

pub no_devices-NamesMatch : NamesMatch (record { devices = []; interfaces = [] })
unfolding lookup
no_devices-NamesMatch k d e = absurd (ground (arith, e))
