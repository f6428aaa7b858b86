-- ===== src/Firewall/Networks.antt =====
-- The networks of a zone after one is added or deleted.
use text.Mathlib.Text.{◌==◌}
use xluci.Prelude.{
  Bool-cases, inl, inr, String, true, some, List, [], ◌≡◌, ◌∙◌, refl, ap, arith, eq_iff,
  if◌then◌else◌,
}
use xluci.Prelude.Dict.{lookup, put}
use xluci.Uci.Store.{list, State, is_meta}
use xluci.Uci.Access.{contains, is_some}
use xluci.Uci.Access.ReadWrite.{writable}
use xluci.Uci.Access.Stored.{get_option-set_self, stored-list}
use xluci.Uci.Save.{sorted_keys}
use xluci.Convert.{to_array, to_object}
use xluci.Convert.Keys.{contains-with_key, contains-keys, lookup-to_object}
use xluci.Firewall.{zone_set, zone_network, add_network, pop, del_network}

zone_network-set :
    (st : State) (sid : String) (l : List String)
    → writable st "firewall" sid ≡ true
    → zone_network (zone_set st sid "network" (list l)) sid ≡ l
unfolding zone_network zone_set to_array is_meta
zone_network-set st sid l w = ap to_array (
    get_option-set_self st "firewall" sid "network" (some (list l)) refl w
    ∙ stored-list st "firewall" sid l)

is_some-key : (l : List String) (y : String) → is_some (lookup y (to_object l [])) ≡ contains l y
unfolding is_some lookup
is_some-key l y = ground (arith, lookup-to_object l [] y)

-- After `addNetwork(n)` on a zone that may be written, its networks are those it had and n.
pub contains-add_network :
    (st : State) (sid n y : String)
    → writable st "firewall" sid ≡ true
    → contains (zone_network (add_network st sid n) sid) y
      ≡ (if n == y then true else contains (zone_network st sid) y)
unfolding add_network
contains-add_network st sid n y w =
    let ns = zone_network st sid in
    let nets = to_object ns [] in
    rw
      (zone_network-set st sid
        (sorted_keys (if is_some (lookup n nets) then nets else put n tt nets)) w)
      (elim (Bool-cases (contains ns n)) [
        | inl old ↦
            rw (is_some-key ns n ∙ old) (contains-keys ns y ∙ ground (arith, old, eq_iff n y))
        | inr new ↦ rw (is_some-key ns n ∙ new) (contains-with_key ns n y)
      ])

-- `delNetwork(n)` on a zone that may be written deletes the last of its networks, whichever that is,
-- if n is one of them, and none otherwise.
pub del_network-pop :
    (st : State) (sid n : String)
    → writable st "firewall" sid ≡ true
    → zone_network (del_network st sid n) sid ≡ (
        if contains (zone_network st sid) n then pop (zone_network st sid) else zone_network st sid)
unfolding del_network
del_network-pop st sid n w =
    let ns = zone_network st sid in
    zone_network-set st sid (if is_some (lookup n (to_object ns [])) then pop ns else ns) w
    ∙ ap (λ b. if b then pop ns else ns) (is_some-key ns n)
