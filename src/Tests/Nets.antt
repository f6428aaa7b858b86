-- ===== src/Tests/Nets.antt =====
-- Addresses, validators and network objects at concrete inputs.
use xluci.Prelude.{
  ℕ, ◌≤◌, String, true, false, Option, none, some, [], ◌∷◌, ◌++◌, ◌≡◌, ◌≢◌, ◌⊎◌, ◌↔◌, refl, arith,
  eq_iff, length, All, replicate, if◌then◌else◌,
}
use text.Mathlib.Text.{◌==◌}
use xluci.Prelude.Dict.{lookup}
use xluci.Text.{codes, digits_value, is_digit, is_hex, digit}
use xluci.Text.Split.{split, join, onto_first}
use xluci.Address.{
  parse_ipv4, parse_ipv6, is_netmask, matches_ipv4, octets, is_octet_text, matches_ipv6, split_gap,
  from_parts, both_sides, side, left_groups, right_groups, right_group, fill, parse_hex, hex_prefix,
  is_group_char, ends_in_digit, dotted, all_zero, is_boundary,
}
use xluci.Address.V4.{print_ipv4, decimal, parse_ipv4-bounded, parse_ipv4-print_ipv4}
use xluci.Address.V6.{parse_ipv6-length}
use xluci.Address.Groups.{parse_ipv6-join, group_bytes}
use xluci.Address.Netmask.{mask, is_netmask_iff}
use xluci.Validation.Addresses.{is_netmask4, is_cidr4}
use xluci.Validation.Prefixes.{is_netmask4_iff}
use xluci.Validation.Cidr.{is_cidr4-leb}
use xluci.Network.Objects.{Device, Interface, Network, get_device_object}
use xluci.Network.Objects.Frame.{get_device_object_lem}
use xluci.Network.Queries.{get_devices, get_interfaces, get_interfaces_by_device}
use xluci.Network.Queries.Members.{In, get_devices_iff, get_interfaces_iff}
use xluci.Network.Alias.{found, resolve_alias}
use xluci.Network.Alias.Ends.{Ends, resolve_alias-Ends}

-- What a run on an address computes with.
program : Unit {0}
unfolding is_digit is_hex digit digits_value split join onto_first parse_ipv4 matches_ipv4 octets
    is_octet_text matches_ipv6 split_gap from_parts both_sides side left_groups right_groups
    right_group fill parse_hex hex_prefix is_group_char ends_in_digit dotted parse_ipv6 is_netmask
    all_zero is_boundary print_ipv4 decimal group_bytes mask
program = tt

mapped :
    parse_ipv6 (codes "::ffff:10.0.0.1")
    ≡ some (0 ∷ 0 ∷ 0 ∷ 0 ∷ 0 ∷ 0 ∷ 0 ∷ 0 ∷ 0 ∷ 0 ∷ 255 ∷ 255 ∷ 10 ∷ 0 ∷ 0 ∷ 1 ∷ [])
unfolding program
mapped = refl

two_gaps : parse_ipv6 (codes "1::2::3") ≡ none
unfolding program
two_gaps = refl

-- Without `::` the dotted tail is read as a group.
dotted_left :
    parse_ipv6 (codes "1:2:3:4:5:6:10.0.0.1")
    ≡ some (0 ∷ 1 ∷ 0 ∷ 2 ∷ 0 ∷ 3 ∷ 0 ∷ 4 ∷ 0 ∷ 5 ∷ 0 ∷ 6 ∷ 0 ∷ 16 ∷ 0 ∷ 0 ∷ [])
unfolding program
dotted_left = refl

leading_zeros : parse_ipv4 (codes "010.0.0.256") ≡ none
unfolding program
leading_zeros = refl

parse_ipv4-bounded_example :
    (length {A = ℕ} (192 ∷ 168 ∷ 1 ∷ 1 ∷ []) ≡ 4) × All (λ n. n ≤ 255) (192 ∷ 168 ∷ 1 ∷ 1 ∷ [])
unfolding program
parse_ipv4-bounded_example = parse_ipv4-bounded (codes "192.168.1.1") (192 ∷ 168 ∷ 1 ∷ 1 ∷ []) refl

parse_ipv4-print_ipv4_example : parse_ipv4 (print_ipv4 192 168 1 0) ≡ some (192 ∷ 168 ∷ 1 ∷ 0 ∷ [])
parse_ipv4-print_ipv4_example =
    parse_ipv4-print_ipv4 192 168 1 0 (omega arith) (omega arith) (omega arith) (omega arith)

parse_ipv6-length_example :
    length {A = ℕ} (0 ∷ 0 ∷ 0 ∷ 0 ∷ 0 ∷ 0 ∷ 0 ∷ 0 ∷ 0 ∷ 0 ∷ 0 ∷ 0 ∷ 0 ∷ 0 ∷ 0 ∷ 1 ∷ []) ≡ 16
unfolding program
parse_ipv6-length_example =
    parse_ipv6-length (codes "::1")
      (0 ∷ 0 ∷ 0 ∷ 0 ∷ 0 ∷ 0 ∷ 0 ∷ 0 ∷ 0 ∷ 0 ∷ 0 ∷ 0 ∷ 0 ∷ 0 ∷ 0 ∷ 1 ∷ []) refl

parse_ipv6-join_example :
    parse_ipv6 (join b':' (codes "fe80" ∷ codes "1" ∷ []))
    ≡ some (group_bytes (codes "fe80" ∷ codes "1" ∷ []) ++ replicate 12 0)
unfolding is_hex
parse_ipv6-join_example =
    parse_ipv6-join (codes "fe80") (codes "1" ∷ []) (refl, (refl, tt)) (omega arith)

is_netmask_iff_example :
    (is_netmask (255 ∷ 240 ∷ []) ≡ true) ↔ ((k : ℕ) × (k ≤ 16) × ((255 ∷ 240 ∷ []) ≡ mask 2 k))
is_netmask_iff_example = is_netmask_iff (255 ∷ 240 ∷ [])

is_netmask4_iff_example :
    (is_netmask4 (codes "255.255.0.0") ≡ true)
    ↔ ((k : ℕ) × (k ≤ 32) × (parse_ipv4 (codes "255.255.0.0") ≡ some (mask 4 k)))
is_netmask4_iff_example = is_netmask4_iff (codes "255.255.0.0")

is_cidr4-leb_example : is_cidr4 (print_ipv4 10 0 0 0 ++ (b'/' ∷ decimal 33)) ≡ false
is_cidr4-leb_example =
    is_cidr4-leb 10 0 0 0 33 (omega arith) (omega arith) (omega arith) (omega arith) (omega arith)

abbrev br_lan : Device
br_lan = record {
  ifname = "br-lan";
  kind = "bridge";
  type = 1;
  up = true;
  sid = some "lan";
  ports = none;
  vlan = none;
  wifi = none;
}

abbrev lan_alias : Device
lan_alias = record {
  ifname = "@lan";
  kind = "alias";
  type = 0;
  up = false;
  sid = some "lan";
  ports = none;
  vlan = none;
  wifi = none;
}

abbrev lan : Interface
lan = record {
  name = "lan";
  proto = "static";
  sid = some "lan";
  l3dev = some "br-lan";
  l2dev = some "br-lan";
}

abbrev net : Network
net = record {
  devices = ("br-lan", br_lan) ∷ ("@lan", lan_alias) ∷ [];
  interfaces = ("lan", lan) ∷ [];
}

net-names : (k : String) (d : Device) → lookup k net.devices ≡ some d → d.ifname ≡ k
unfolding lookup
net-names k d h = ground (arith, h, eq_iff "br-lan" k, eq_iff "@lan" k)

resolve_alias-Ends_example :
    (r : Option Device) × (resolve_alias 3 net "@lan" ≡ found r)
    × ((f : Device) → (r ≡ some f) ↔ Ends net "@lan" f)
resolve_alias-Ends_example = resolve_alias-Ends 3 net "@lan" net-names (omega arith)

get_device_object_lem_example :
    ((k : String)
      → lookup k (get_device_object net "eth0").1.devices
        ≡ (if "eth0" == k then some (get_device_object net "eth0").0 else lookup k net.devices))
    × ((d : Device) → lookup "eth0" net.devices ≡ some d → (get_device_object net "eth0").0 ≡ d)
    × ((k : String) (d : Device)
        → lookup k (get_device_object net "eth0").1.devices ≡ some d
        → d.ifname ≡ k)
get_device_object_lem_example = get_device_object_lem net "eth0" net-names

get_interfaces_iff_example :
    (In lan (get_interfaces_by_device net "br-lan") ↔ (
      (k : String) × (lookup k net.interfaces ≡ some lan)
      × ((lan.l2dev ≡ some "br-lan") ⊎ (lan.l3dev ≡ some "br-lan"))))
    × (In lan (get_interfaces net)
        ↔ ((k : String) × (lookup k net.interfaces ≡ some lan) × (k ≢ "loopback")))
get_interfaces_iff_example = get_interfaces_iff net "br-lan" lan

get_devices_iff_example :
    In br_lan (get_devices net) ↔ ((k : String) × (lookup k net.devices ≡ some br_lan) × (k ≢ "lo"))
get_devices_iff_example = get_devices_iff net br_lan
