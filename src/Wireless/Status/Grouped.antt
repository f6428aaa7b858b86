-- ===== src/Wireless/Status/Grouped.antt =====
-- Where the replies end up in the status.
use mathlib.Core.List.{append_assoc, append-nil}
use text.Mathlib.Text.{◌==◌}
use xluci.Prelude.{
  String, some, List, [], ◌∷◌, ◌++◌, map, ◌≡◌, refl, sym, ◌∙◌, ap, arith, eq_iff, if◌then◌else◌,
  inl, inr, Bool-cases,
}
use xluci.Prelude.Dict.{Dict, lookup, put, lookup-put}
use xluci.Wireless.Status.{
  copy_attrs, phy_attrs, Reply, Net, Phy, net_of, phy_at, status_from, wireless_status,
}

-- The devices of the radio, in the order of the replies.
abbrev pub devices_of : {V : Type 0} → String → List (Reply V) → List String
devices_of p [] = []
devices_of p (r ∷ l) = if r.phy == p then r.device ∷ devices_of p l else devices_of p l

abbrev pub device_names : {V : Type 0} → List (Net V) → List String
device_names l = map (λ n. n.device) l

module _ {V : Type 0} where
  device-net_of : (r : Reply V) (seen : Dict (Net V)) → (net_of r seen).device ≡ r.device
  unfolding net_of
  device-net_of r seen = ground arith

  device_names-append :
      (xs : List (Net V)) (n : Net V)
      → device_names (xs ++ n ∷ []) ≡ device_names xs ++ n.device ∷ []
  device_names-append [] n = refl
  device_names-append (x ∷ xs) n = ap (λ l. x.device ∷ l) (device_names-append xs n)

  phy_at-put :
      (k p : String) (v : Phy V) (rv : Dict (Phy V))
      → device_names (phy_at p (put k v rv)).networks
        ≡ (if k == p then device_names v.networks else device_names (phy_at p rv).networks)
  unfolding phy_at
  phy_at-put k p v rv = ground (arith, lookup-put k p v rv)

  -- A reply adds its device to the radio that it names.
  device_names-step :
      (r : Reply V) (seen : Dict (Net V)) (rv : Dict (Phy V)) (a : Dict V) (l : List (Reply V))
      (p : String)
      → device_names
            (phy_at p (
              put r.phy
                (record {
                  phy = r.phy;
                  attributes = a;
                  networks = (phy_at r.phy rv).networks ++ net_of r seen ∷ [];
                })
                rv)).networks
          ++ devices_of p l
        ≡ device_names (phy_at p rv).networks ++ devices_of p (r ∷ l)
  device_names-step r seen rv a l p =
      let old = (phy_at r.phy rv).networks in
      let v : Phy V = record {
        phy = r.phy;
        attributes = a;
        networks = old ++ net_of r seen ∷ [];
      } in
      elim (Bool-cases (r.phy == p)) [
        | inl same ↦
            let more : r.device ∷ devices_of p l ≡ devices_of p (r ∷ l) = ground (arith, same) in
            let is : r.phy ≡ p = (eq_iff r.phy p).0 same in
            let names : device_names (phy_at p (put r.phy v rv)).networks
                ≡ device_names old ++ r.device ∷ [] =
              phy_at-put r.phy p v rv
              ∙ (ground (arith, same)
                  ∙ (device_names-append old (net_of r seen)
                      ∙ ap (λ d. device_names old ++ d ∷ []) (device-net_of r seen))) in
            let there : device_names old ≡ device_names (phy_at p rv).networks =
              ap (λ q. device_names (phy_at q rv).networks) is in
            ap (λ x. x ++ devices_of p l) names
            ∙ (append_assoc (device_names old) (r.device ∷ []) (devices_of p l)
                ∙ (ap (λ x. x ++ (r.device ∷ devices_of p l)) there
                    ∙ ap (λ x. device_names (phy_at p rv).networks ++ x) more))
        | inr other ↦
            let names : device_names (phy_at p (put r.phy v rv)).networks
                ≡ device_names (phy_at p rv).networks =
              phy_at-put r.phy p v rv ∙ ground (arith, other) in
            let more : devices_of p l ≡ devices_of p (r ∷ l) = ground (arith, other) in
            ap (λ x. x ++ devices_of p l) names
            ∙ ap (λ x. device_names (phy_at p rv).networks ++ x) more
      ]

  status_from-some :
      (l : List (Reply V)) (seen : Dict (Net V)) (rv : Dict (Phy V))
      → (rv' : Dict (Phy V)) × (status_from (map some l) seen rv ≡ some rv')
        × ((p : String)
            → device_names (phy_at p rv').networks
              ≡ device_names (phy_at p rv).networks ++ devices_of p l)
  unfolding status_from
  status_from-some [] seen rv =
      (rv, refl, λ p. sym (append-nil (device_names (phy_at p rv).networks)))
  status_from-some (r ∷ l) seen rv =
      let old = phy_at r.phy rv in
      let a = copy_attrs phy_attrs r.attributes old.attributes in
      let v : Phy V = record {
        phy = r.phy;
        attributes = a;
        networks = old.networks ++ net_of r seen ∷ [];
      } in
      let (rv', e, k) = status_from-some l (put r.device (net_of r seen) seen) (put r.phy v rv) in
      (rv', e, λ p. k p ∙ device_names-step r seen rv a l p)

-- Where every device of the batch has a status, the result has each of them exactly under the radio that
-- its status names, in the order of the replies.
pub wireless_status-grouped :
    {V : Type 0} (l : List (Reply V))
    → (rv : Dict (Phy V)) × (wireless_status (map some l) ≡ some rv)
      × ((p : String) → device_names (phy_at p rv).networks ≡ devices_of p l)
unfolding wireless_status phy_at lookup
wireless_status-grouped l = let (rv, e, k) = status_from-some l [] [] in (rv, e, k)
