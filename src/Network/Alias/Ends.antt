-- ===== src/Network/Alias/Ends.antt =====
-- What `resolveAlias` computes.
use mathlib.Core.Path.{subst}
use xluci.Prelude.{
  ℕ, ◌<◌, String, Option, some, [], ◌≡◌, ◌∙◌, ◌↔◌, arith, length, inl, inr, Option-cases,
}
use xluci.Prelude.Dict.{lookup}
use xluci.Uci.Access.{contains}
use xluci.Network.Objects.{Device, Network}
use xluci.Network.Alias.{found, resolve_alias}
use xluci.Network.Alias.Resolved.{follow-ends, unseen-le-length}
use xluci.Network.Alias.Chain.{
  NamesMatch, Leads, Behind, lookup-own, Leads-Stored, follow-none, follow-Leads, follow_complete,
}

-- The device of this name leads to `f`, which is no alias, by the interfaces of the aliases between.
abbrev pub Ends : Network → String → Device → Type 0
Ends net ifname f = (d : Device) × (n : ℕ) × (lookup ifname net.devices ≡ some d) × Leads net f n d

none-Behind : (net : Network) (f : Device) (n : ℕ) → Behind net f n []
unfolding contains
none-Behind net f n x h = absurd (ground (arith, h))

Ends-of_found :
    (fuel : ℕ) (net : Network) (ifname : String) (f : Device)
    → NamesMatch net
    → resolve_alias fuel net ifname ≡ found (some f)
    → Ends net ifname f
unfolding resolve_alias
Ends-of_found fuel net ifname f names h = elim (Option-cases (lookup ifname net.devices)) [
  | inl e ↦ absurd (ground (arith, h, e, follow-none fuel net [] f))
  | inr (d, e) ↦
      let (n, g, l, result) = follow-Leads fuel net [] d f (ground (arith, h, e)) in
      let own = lookup-own net g names (Leads-Stored net g n d (ifname, e) l) in
      let same : g ≡ f = ground (arith, own, result) in
      (d, n, e, subst (λ x. Leads net x n d) same l)
]

found_of_Ends :
    (fuel : ℕ) (net : Network) (ifname : String) (r : Option Device) (f : Device)
    → NamesMatch net
    → resolve_alias fuel net ifname ≡ found r
    → Ends net ifname f
    → r ≡ some f
unfolding resolve_alias
found_of_Ends fuel net ifname r f names h (d, n, e, l) =
    follow_complete fuel net [] d f n r names (ifname, e) l (none-Behind net f n)
      (ground (arith, h, e))
    ∙ lookup-own net f names (Leads-Stored net f n d (ifname, e) l)

resolve_alias-returns :
    (fuel : ℕ) (net : Network) (ifname : String)
    → length net.devices < fuel
    → (r : Option Device) × (resolve_alias fuel net ifname ≡ found r)
unfolding resolve_alias
resolve_alias-returns fuel net ifname h =
    follow-ends fuel net [] (lookup ifname net.devices) (λ d e. (ifname, e))
      (omega (arith, unseen-le-length [] net.devices))

-- `resolveAlias` ends: with more fuel than there are devices it returns. It returns the device f if
-- and only if the device of the given name leads to f, which is no alias, through the interfaces of
-- the aliases on the way; so nothing where there is no such device, where an alias leads nowhere, and
-- where the aliases run in a circle. The devices are stored under their own names.
pub resolve_alias-Ends :
    (fuel : ℕ) (net : Network) (ifname : String)
    → NamesMatch net
    → length net.devices < fuel
    → (r : Option Device) × (resolve_alias fuel net ifname ≡ found r)
      × ((f : Device) → (r ≡ some f) ↔ Ends net ifname f)
resolve_alias-Ends fuel net ifname names h =
    let (r, result) = resolve_alias-returns fuel net ifname h in
    (
      r,
      result,
      λ f. (
        λ e. Ends-of_found fuel net ifname f names (ground (arith, result, e)),
        λ e. found_of_Ends fuel net ifname r f names result e,
      ),
    )
