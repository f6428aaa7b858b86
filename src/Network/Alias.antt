-- ===== src/Network/Alias.antt =====
-- `resolveAlias` of network.js: from an alias device to the device behind it.
pub mod Resolved
pub mod Chain
pub mod Ends
use text.Mathlib.Text.{◌==◌}
use xluci.Prelude.{
  ℕ, suc, zero, String, Bool, true, false, Option, none, some, List, [], ◌∷◌, if◌then◌else◌,
}
use xluci.Prelude.Dict.{lookup}
use xluci.Uci.Access.{contains}
use xluci.Network.Objects.{Device, Network, at_key}

pub data Outcome : Type 0 where
  found : Option Device → Outcome
  out_of_fuel : Outcome

-- ifc ? this.deviceObjects[ifc.l3dev] : undefined
unfoldable pub behind : Network → Device → Option Device
unfolding at_key
behind net dev = elim (at_key dev.sid net.interfaces) [
  | none ↦ none
  | some ifc ↦ at_key ifc.l3dev net.devices
]

-- The loop, which stops at a device that was seen.
unfoldable pub follow : ℕ → Network → List String → Option Device → Outcome
follow zero net seen dev = out_of_fuel
follow (suc fuel) net seen none = found none
follow (suc fuel) net seen (some dev) =
    let next = follow fuel net (dev.ifname ∷ seen) (behind net dev) in
    if dev.kind == "alias"
    then (if contains seen dev.ifname then found none else next)
    else found (lookup dev.ifname net.devices)

-- resolveAlias(ifname)
unfoldable pub resolve_alias : ℕ → Network → String → Outcome
resolve_alias fuel net ifname = follow fuel net [] (lookup ifname net.devices)
