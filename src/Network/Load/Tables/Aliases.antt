-- ===== src/Network/Load/Tables/Aliases.antt =====
-- The aliases of the tables that `load` and the refreshes make.
use text.Mathlib.Text.{◌==◌}
use xluci.Prelude.{
  ◌<◌, ℕ, String, not, ◌&&◌, Option, none, some, List, [], ◌∷◌, ◌≡◌, ◌↔◌, refl, ◌∙◌, arith, length,
  inl, inr, Option-cases, Bool-cases,
}
use mathlib.Core.Path.{subst}
use xluci.Prelude.Dict.{lookup}
use xluci.Uci.Store.{Section, State}
use xluci.Uci.Sections.{sections}
use xluci.Network.Objects.{Device, Interface, Network, get_interface_object}
use xluci.Network.Alias.{found, resolve_alias}
use xluci.Network.Alias.Chain.{NamesMatch}
use xluci.Network.Alias.Ends.{Ends, resolve_alias-Ends}
use xluci.Network.Load.{Cache, Numbers, text_option}
use xluci.Network.Load.Config.{load_devices}
use xluci.Network.Load.Interfaces.{
  Handlers, IfaceState, with_interface, configure, configure_all, adopt, adopt_all, load_interfaces,
}
use xluci.Network.Load.Named.{load_devices-NamesMatch, no_devices-NamesMatch}
use xluci.Network.Load.Tables.{
  empty, load_network, Refresh, interface_status, device_status, refresh, refreshes,
}

devices-with_interface :
    (net : Network) (name : String) (change : Interface → Interface)
    → (with_interface net name change).devices ≡ net.devices
unfolding with_interface get_interface_object
devices-with_interface net name change = elim (Option-cases (lookup name net.interfaces)) [
  | inl e ↦ ground (arith, e)
  | inr (ifc, e) ↦ ground (arith, e)
]

devices-configure_all :
    (h : Handlers) (st : State) (l : List Section) (net : Network)
    → (configure_all h st l net).devices ≡ net.devices
unfolding configure_all
devices-configure_all h st [] net = refl
devices-configure_all h st (s ∷ l) net =
    elim (Bool-cases (s.type == "interface" && not s.anonymous)) [
      | inr e ↦ rw (e, configure_all) (devices-configure_all h st l net)
      | inl e ↦ elim (Option-cases (text_option s "proto")) [
        | inl p ↦ rw (e, p, configure_all) (devices-configure_all h st l net)
        | inr (proto, p) ↦
            let change = configure h st net.devices s proto in
            rw (e, p, configure_all)
              (devices-configure_all h st l (with_interface net s.name change)
                ∙ devices-with_interface net s.name change)
      ]
    ]

devices-adopt_all :
    (h : Handlers) (l : List IfaceState) (net : Network) → (adopt_all h l net).devices ≡ net.devices
unfolding adopt_all
devices-adopt_all h [] net = refl
devices-adopt_all h (i ∷ l) net =
    devices-adopt_all h l (with_interface net i.name (adopt h i))
    ∙ devices-with_interface net i.name (adopt h i)

-- `loadInterfacesCallback` makes no device and changes none.
devices-load_interfaces :
    (h : Handlers) (states : List IfaceState) (st : State) (net : Network)
    → (load_interfaces h states st net).0.devices ≡ net.devices
unfolding load_interfaces
devices-load_interfaces h states st net =
    let (configured, st') = sections st "network" none in
    devices-adopt_all h states (configure_all h st' configured net)
    ∙ devices-configure_all h st' configured net

load_interfaces-NamesMatch :
    (h : Handlers) (states : List IfaceState) (st : State) (net : Network)
    → NamesMatch net
    → NamesMatch (load_interfaces h states st net).0
load_interfaces-NamesMatch h states st net names k d e =
    names k d (subst (λ x. lookup k x ≡ some d) (devices-load_interfaces h states st net) e)

module _ (js : Numbers) (h : Handlers) where
  refreshes-NamesMatch :
      (l : List Refresh) (net : Network) → NamesMatch net → NamesMatch (refreshes js h net l)
  unfolding refreshes refresh
  refreshes-NamesMatch [] net names = names
  refreshes-NamesMatch (interface_status states st ∷ l) net names =
      refreshes-NamesMatch l (load_interfaces h states st net).0
        (load_interfaces-NamesMatch h states st net names)
  refreshes-NamesMatch (device_status cache st ∷ l) net names =
      refreshes-NamesMatch l (load_devices js cache st net).0
        (load_devices-NamesMatch js cache st net names)

  load_network-NamesMatch :
      (cache : Cache) (states : List IfaceState) (st : State)
      → NamesMatch (load_network js h cache states st).0
  unfolding load_network
  load_network-NamesMatch cache states st =
      let (net, st') = load_devices js cache st empty in
      load_interfaces-NamesMatch h states st' net
        (load_devices-NamesMatch js cache st empty no_devices-NamesMatch)

  -- On the devices and interfaces that `load` made, and any refreshes loaded again with any answers of the
  -- router and any store, `resolveAlias` ends for every name, with more fuel than there are devices, and
  -- returns the device f exactly if the name leads to f, which is no alias, through the interfaces of
  -- aliases; so nothing where the aliases run in a circle.
  pub resolve_alias-loaded :
      (cache : Cache) (states : List IfaceState) (st : State) (l : List Refresh) (fuel : ℕ)
      (ifname : String)
      → length (refreshes js h (load_network js h cache states st).0 l).devices < fuel
      → (r : Option Device) × (resolve_alias fuel
            (refreshes js h (load_network js h cache states st).0 l)
            ifname
          ≡ found r)
        × ((f : Device)
            → (r ≡ some f) ↔ Ends (refreshes js h (load_network js h cache states st).0 l) ifname f)
  resolve_alias-loaded cache states st l fuel ifname more =
      let net = (load_network js h cache states st).0 in
      resolve_alias-Ends fuel (refreshes js h net l) ifname
        (refreshes-NamesMatch l net (load_network-NamesMatch cache states st)) more
