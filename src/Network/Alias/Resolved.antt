-- ===== src/Network/Alias/Resolved.antt =====
-- `resolveAlias` ends, and what it returns.
use text.Mathlib.Text.{◌==◌}
use xluci.Prelude.{
  suc, zero, Bool, Option, none, refl, inl, inr, Bool-cases, Option-cases, ℕ, ◌+◌, ◌<◌, ◌≤◌, String,
  true, false, some, List, [], ◌∷◌, ◌≡◌, arith, eq_iff, length, if◌then◌else◌,
}
use xluci.Prelude.Dict.{Dict, lookup}
use xluci.Uci.Access.{contains}
use xluci.Network.Alias.{found, behind, follow}
use xluci.Network.Objects.{Network, at_key, Device}

-- The number of devices whose name was not seen.
pub unseen : List String → Dict Device → ℕ
unseen seen [] = 0
unseen seen ((k, d) ∷ ds) = (if contains seen d.ifname then 0 else 1) + unseen seen ds

pub unseen-le-length : (seen : List String) (ds : Dict Device) → unseen seen ds ≤ length ds
unfolding unseen
unseen-le-length seen [] = omega arith
unseen-le-length seen ((k, d) ∷ ds) = ground (arith, unseen-le-length seen ds)

pub contains-cons :
    (x : String) (seen : List String) (y : String)
    → contains (x ∷ seen) y ≡ (if x == y then true else contains seen y)
unfolding contains
contains-cons x seen y = ground arith

unseen-cons :
    (x : String) (seen : List String) (ds : Dict Device) → unseen (x ∷ seen) ds ≤ unseen seen ds
unfolding unseen
unseen-cons x seen [] = omega arith
unseen-cons x seen ((k, d) ∷ ds) =
    ground (arith, contains-cons x seen d.ifname, unseen-cons x seen ds)

-- To see a device that was not seen leaves fewer.
unseen-lt :
    (seen : List String) (ds : Dict Device) (k : String) (d : Device)
    → lookup k ds ≡ some d
    → contains seen d.ifname ≡ false
    → unseen (d.ifname ∷ seen) ds < unseen seen ds
unfolding unseen lookup
unseen-lt seen [] k d e fresh = absurd (ground (arith, e))
unseen-lt seen ((j, d') ∷ ds) k d e fresh = ground (
  arith,
  e,
  fresh,
  eq_iff d.ifname d.ifname,
  contains-cons d.ifname seen d'.ifname,
  unseen-cons d.ifname seen ds,
  unseen-lt seen ds k d,
)

-- A device that is stored under some name.
abbrev pub Stored : Network → Device → Type 0
Stored net d = (k : String) × (lookup k net.devices ≡ some d)

at_key-Stored :
    (net : Network) (k : Option String) (d : Device) → at_key k net.devices ≡ some d → Stored net d
unfolding at_key
at_key-Stored net none d h = absurd (ground (arith, h))
at_key-Stored net (some k) d h = (k, h)

pub behind-Stored : (net : Network) (d e : Device) → behind net d ≡ some e → Stored net e
unfolding behind
behind-Stored net d e h = elim (Option-cases (at_key d.sid net.interfaces)) [
  | inl none_there ↦ absurd (ground (arith, h, none_there))
  | inr (ifc, there) ↦ at_key-Stored net ifc.l3dev e (ground (arith, h, there))
]

abbrev is_alias : Device → Bool
is_alias d = d.kind == "alias"

pub follow-ends :
    (fuel : ℕ) (net : Network) (seen : List String) (dev : Option Device)
    → ((d : Device) → dev ≡ some d → Stored net d)
    → unseen seen net.devices < fuel
    → (r : Option Device) × (follow fuel net seen dev ≡ found r)
unfolding follow
follow-ends zero net seen dev stored h = absurd (omega arith)
follow-ends (suc fuel) net seen none stored h = (none, refl)
follow-ends (suc fuel) net seen (some d) stored h = elim (Bool-cases (is_alias d)) [
  | inr other ↦ (lookup d.ifname net.devices, ground (arith, other))
  | inl alias ↦ elim (Bool-cases (contains seen d.ifname)) [
    | inl cycle ↦ (none, ground (arith, alias, cycle))
    | inr fresh ↦
        let (k, e) = stored d refl in
        let (r, result) =
          follow-ends fuel net (d.ifname ∷ seen) (behind net d) (behind-Stored net d)
            (omega (arith, unseen-lt seen net.devices k d e fresh)) in
        (r, ground (arith, alias, fresh, result))
  ]
]
