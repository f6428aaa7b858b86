-- ===== src/Validation/Prefixes.antt =====
-- What the validators of addresses accept.
use xluci.Prelude.{ℕ, ◌≤◌, true, some, [], ◌≡◌, ◌↔◌, arith, Option-cases, inl, inr}
use xluci.Text.{Text}
use xluci.Text.Split.{join}
use xluci.Address.{parse_ipv4, is_netmask?}
use xluci.Address.V4.{parse_ipv4-bounded}
use xluci.Address.Netmask.{mask, is_netmask_iff}
use xluci.Address.Groups.{is_group, parse_ipv6-join}
use xluci.Uci.Access.{is_some}
use xluci.Validation.Addresses.{is_netmask4, is_ipaddr}

-- A text is accepted as an IPv4 netmask exactly if it is read as the four bytes that start with some
-- number of set bits, up to 32, and have no other.
pub is_netmask4_iff :
    (s : Text) → (is_netmask4 s ≡ true) ↔ ((k : ℕ) × (k ≤ 32) × (parse_ipv4 s ≡ some (mask 4 k)))
unfolding is_netmask4 is_netmask?
is_netmask4_iff s = elim (Option-cases (parse_ipv4 s)) [
  | inl e ↦ (λ h. absurd (ground (arith, e, h)), λ t. absurd (ground (arith, e, t.2)))
  | inr (num, e) ↦
      let n = (parse_ipv4-bounded s num e).0 in
      (
        λ h.
            let (k, le, m) = (is_netmask_iff num).0 (ground (arith, e, h)) in
            (k, omega arith, ground (arith, e, m, n)),
        λ t.
            let m : num ≡ mask 4 t.0 = ground (arith, e, t.2) in
            ground (arith, e, (is_netmask_iff num).1 (t.0, omega arith, ground (arith, m, n))),
      )
]

-- A single group of one to nine hexadecimal digits, such as a plain number, is accepted as an IP address.
pub is_ipaddr-group : (g : Text) → is_group g ≡ true → is_ipaddr g ≡ true
unfolding is_ipaddr is_some join
is_ipaddr-group g h = ground (arith, parse_ipv6-join g [] (h, tt))
