-- ===== src/Firewall/Zones.antt =====
-- New zones, and the search for a zone.
use xluci.Prelude.{
  ℕ, ◌<◌, Option, none, List, [], ◌∷◌, ◌++◌, String, true, false, some, ◌≡◌, refl, arith, eq_iff,
  if◌then◌else◌,
}
use text.Mathlib.Text.{◌==◌}
use xluci.Prelude.Dict.{lookup2, lookup2-put2}
use xluci.Uci.Store.{Value, str, State, is_meta}
use xluci.Uci.Access.{is_some}
use xluci.Uci.Access.ReadWrite.{get_option-set_option}
use xluci.Uci.Access.Stored.{stored-created, created-writable, created-set_option}
use xluci.Uci.Store.{field}
use xluci.Uci.Create.{taken, truthy, new_section, add_as}
use xluci.Uci.Create.Fresh.{add-fresh}
use xluci.Firewall.{create_zone, zone_get, zone_set, zone_settings}

-- A setting of a created section reads back, and leaves the other keys alone.
zone_get-set :
    (st : State) (sid key k : String) (v : Value)
    → is_meta key ≡ false
    → is_some (lookup2 "firewall" sid st.creates) ≡ true
    → zone_get (zone_set st sid key v) sid k ≡ (if key == k then some v else zone_get st sid k)
unfolding zone_get zone_set
zone_get-set st sid key k v plain h = ground (
  arith,
  get_option-set_option st "firewall" sid key (some v) "firewall" sid k plain,
  created-writable st "firewall" sid h,
  stored-created st "firewall" sid (some v) h,
  eq_iff sid sid,
)

created-zone_set :
    (st : State) (sid key : String) (v : Value)
    → is_meta key ≡ false
    → is_some (lookup2 "firewall" sid st.creates) ≡ true
    → is_some (lookup2 "firewall" sid (zone_set st sid key v).creates) ≡ true
unfolding zone_set
created-zone_set st sid key v plain h = created-set_option st "firewall" sid key (some v) plain h

pub zone_settings_lem :
    (st : State) (sid name k : String)
    → is_some (lookup2 "firewall" sid st.creates) ≡ true
    → zone_get (zone_settings st sid name) sid k ≡ (
        if "output" == k
        then some (str "ACCEPT")
        else if "forward" == k
        then some (str "REJECT")
        else if "input" == k
        then some (str "ACCEPT")
        else if "name" == k
        then some (str name)
        else zone_get st sid k)
unfolding zone_settings is_meta
zone_settings_lem st sid name k h =
    let st1 = zone_set st sid "name" (str name) in
    let h1 = created-zone_set st sid "name" (str name) refl h in
    let st2 = zone_set st1 sid "input" (str "ACCEPT") in
    let h2 = created-zone_set st1 sid "input" (str "ACCEPT") refl h1 in
    let st3 = zone_set st2 sid "forward" (str "REJECT") in
    let h3 = created-zone_set st2 sid "forward" (str "REJECT") refl h2 in
    rw (zone_get-set st3 sid "output" k (str "ACCEPT") refl h3) (
      rw (zone_get-set st2 sid "forward" k (str "REJECT") refl h2) (
        rw (zone_get-set st1 sid "input" k (str "ACCEPT") refl h1)
          (rw (zone_get-set st sid "name" k (str name) refl h))))

created-add_as :
    (st : State) (type : String) (name : Option String) (sid : String)
    → is_some (lookup2 "firewall" sid (add_as st "firewall" type name sid).creates) ≡ true
unfolding add_as is_some
created-add_as st type name sid = ground (
  arith,
  eq_iff "firewall" "firewall",
  eq_iff sid sid,
  lookup2-put2 "firewall" sid "firewall" sid (new_section st type name sid) st.creates,
)

-- `createZone(name)` ends if one of the first `fuel` names drawn for the section is free: the zone is
-- put behind the others, under a name that no section of the package had. It has the given name,
-- accepts what comes in and goes out and rejects what is forwarded; every other key is that of a new
-- section of type zone.
pub create_zone_lem :
    (j fuel : ℕ) (draw : ℕ → String) (st : State) (zones : List String) (name : String)
    → j < fuel
    → taken st "firewall" (draw j) ≡ false
    → (sid : String) × (st' : State) × (create_zone fuel draw st zones name
        ≡ some (sid, zones ++ sid ∷ [], st'))
      × (taken st "firewall" sid ≡ false)
      × ((k : String)
          → zone_get st' sid k ≡ (
              if "output" == k
              then some (str "ACCEPT")
              else if "forward" == k
              then some (str "REJECT")
              else if "input" == k
              then some (str "ACCEPT")
              else if "name" == k
              then some (str name)
              else field (new_section st "zone" none sid) k))
unfolding create_zone truthy zone_get
create_zone_lem j fuel draw st zones name h free =
    let (sid, added, fresh, reads) = add-fresh j fuel draw st "firewall" "zone" none refl h free in
    let st1 = add_as st "firewall" "zone" none sid in
    (
      sid,
      zone_settings st1 sid name,
      ground (arith, added),
      fresh,
      λ k.
          let new : zone_get st1 sid k ≡ field (new_section st "zone" none sid) k =
            ground (arith, eq_iff "firewall" "firewall", eq_iff sid sid, reads "firewall" sid k) in
          rw (← new) (zone_settings_lem st1 sid name k (created-add_as st "zone" none sid)),
    )
