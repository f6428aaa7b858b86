-- ===== src/Network/Alias/Chain.antt =====
-- The chains of aliases that `resolveAlias` follows.
use mathlib.Core.Path.{subst}
use text.Mathlib.Text.{◌==◌}
use xluci.Prelude.{
  ℕ, suc, zero, ◌<◌, String, true, false, Option, none, some, List, ◌∷◌, ◌≡◌, ◌≢◌, ap, refl, arith,
  eq_iff, inl, inr, Bool-cases, Option-cases,
}
use xluci.Prelude.Dict.{lookup}
use xluci.Uci.Access.{contains}
use xluci.Network.Objects.{Device, Network}
use xluci.Network.Alias.{found, behind, follow}
use xluci.Network.Alias.Resolved.{Stored, behind-Stored, contains-cons}

-- Every device is stored under its own name, as `getDeviceObject` stores it.
abbrev pub NamesMatch : Network → Type 0
NamesMatch net = (k : String) (d : Device) → lookup k net.devices ≡ some d → d.ifname ≡ k

-- From `d` the interfaces of the aliases lead to `f`, which is no alias, in so many steps.
pub data Leads (net : Network) (f : Device) : ℕ → Device → Type 0 where
  stop : {d : Device} → (d.kind == "alias") ≡ false → d ≡ f → Leads net f zero d
  step :
      {n : ℕ} {d e : Device}
      → (d.kind == "alias") ≡ true
      → behind net d ≡ some e
      → Leads net f n e
      → Leads net f (suc n) d

pub lookup-own :
    (net : Network) (d : Device)
    → NamesMatch net
    → Stored net d
    → lookup d.ifname net.devices ≡ some d
lookup-own net d names (k, e) = ground (arith, names k d e, e)

pub Leads-Stored :
    (net : Network) (f : Device) (n : ℕ) (d : Device)
    → Stored net d
    → Leads net f n d
    → Stored net f
Leads-Stored net f n d h (stop _ e) = subst (Stored net) e h
Leads-Stored net f n d h (step {e = next} alias b l) =
    Leads-Stored net f _ next (behind-Stored net d next b) l

pub follow-none :
    (fuel : ℕ) (net : Network) (seen : List String) (r : Device)
    → follow fuel net seen none ≢ found (some r)
unfolding follow
follow-none zero net seen r h = ground (arith, h)
follow-none (suc fuel) net seen r h = ground (arith, h)

-- What is returned is at the end of a chain.
pub follow-Leads :
    (fuel : ℕ) (net : Network) (seen : List String) (d r : Device)
    → follow fuel net seen (some d) ≡ found (some r)
    → (n : ℕ) × (f : Device) × Leads net f n d × (lookup f.ifname net.devices ≡ some r)
unfolding follow
follow-Leads zero net seen d r h = absurd (ground (arith, h))
follow-Leads (suc fuel) net seen d r h = elim (Bool-cases (d.kind == "alias")) [
  | inr other ↦ (zero, d, stop other refl, ground (arith, h, other))
  | inl alias ↦ elim (Option-cases (behind net d)) [
    | inl none_there ↦
        absurd (ground (arith, h, alias, none_there, follow-none fuel net (d.ifname ∷ seen) r))
    | inr (e, there) ↦
        let (n, f, l, result) =
          follow-Leads fuel net (d.ifname ∷ seen) e r (ground (arith, h, alias, there)) in
        (suc n, f, step alias there l, result)
  ]
]

Leads-unique :
    (net : Network) (f : Device) (m n : ℕ) (d : Device) → Leads net f m d → Leads net f n d → m ≡ n
Leads-unique net f m n d (stop _ _) (stop _ _) = refl
Leads-unique net f m n d (stop other _) (step alias _ _) = absurd (ground (arith, other, alias))
Leads-unique net f m n d (step alias _ _) (stop other _) = absurd (ground (arith, other, alias))
Leads-unique net f m n d (step {e = e} a b l) (step {e = e'} a' b' l') =
    let same : e' ≡ e = ground (arith, b, b') in
    ap suc (Leads-unique net f _ _ e l (subst (Leads net f _) same l'))

-- Each name that was seen is that of a device further from the end than this.
abbrev pub Behind : Network → Device → ℕ → List String → Type 0
Behind net f n seen =
    (x : String)
    → contains seen x ≡ true
    → (d : Device) × (m : ℕ) × (lookup x net.devices ≡ some d) × Leads net f m d × (n < m)

Behind-cons :
    (net : Network) (f d : Device) (n : ℕ) (seen : List String)
    → lookup d.ifname net.devices ≡ some d
    → Leads net f (suc n) d
    → Behind net f (suc n) seen
    → Behind net f n (d.ifname ∷ seen)
Behind-cons net f d n seen own l old x h = elim (Bool-cases (d.ifname == x)) [
  | inl same ↦ (d, suc n, ground (arith, own, same, eq_iff d.ifname x), l, omega arith)
  | inr other ↦
      let (dx, m, at_x, lx, lt) = old x (ground (arith, h, other, contains-cons d.ifname seen x)) in
      (dx, m, at_x, lx, omega arith)
]

not_seen :
    (net : Network) (f d : Device) (n : ℕ) (seen : List String)
    → lookup d.ifname net.devices ≡ some d
    → Leads net f n d
    → Behind net f n seen
    → contains seen d.ifname ≡ false
not_seen net f d n seen own l old = elim (Bool-cases (contains seen d.ifname)) [
  | inr fresh ↦ fresh
  | inl cycle ↦
      let (dx, m, at_x, lx, lt) = old d.ifname cycle in
      let same : dx ≡ d = ground (arith, at_x, own) in
      let eq = Leads-unique net f m n d (subst (Leads net f m) same lx) l in
      absurd (omega (arith, eq))
]

-- A chain that ends is followed to its end.
pub follow_complete :
    (fuel : ℕ) (net : Network) (seen : List String) (d f : Device) (n : ℕ) (r : Option Device)
    → NamesMatch net
    → Stored net d
    → Leads net f n d
    → Behind net f n seen
    → follow fuel net seen (some d) ≡ found r
    → r ≡ lookup f.ifname net.devices
unfolding follow
follow_complete zero net seen d f n r names stored l old h = absurd (ground (arith, h))
follow_complete (suc fuel) net seen d f n r names stored (stop other e) old h =
    ground (arith, h, other, e)
follow_complete (suc fuel) net seen d f n r names stored (step {e = e} alias there l) old h =
    let own = lookup-own net d names stored in
    let fresh = not_seen net f d n seen own (step alias there l) old in
    follow_complete fuel net (d.ifname ∷ seen) e f _ r names (behind-Stored net d e there) l
      (Behind-cons net f d _ seen own (step alias there l) old)
      (ground (arith, h, alias, there, fresh))
