-- ===== src/Firewall/Forwards.antt =====
-- firewall.js: the forwardings of a zone, and how the form's two lists of zones read and save them. A
-- forwarding is the name of its section; `own` is the option that has the zone of the form and `other`
-- the one that has the other zone, `src` and `dest` for the list `out`, `dest` and `src` for `in`.
use xluci.Prelude.{
  ℕ, suc, String, Bool, true, false, Option, none, some, List, [], ◌∷◌, if◌then◌else◌,
}
use xluci.Uci.Store.{Value, str, State}
use xluci.Uci.Access.{remove}
use xluci.Uci.Create.{add}
use xluci.Firewall.{zone_get, zone_set, is_text, is_blank, load_forwards}

-- Zone.findForwardsBy(what), for a zone that has the name `name`
unfoldable pub find_forwards_by : State → List String → String → String → List String
unfolding zone_get is_text is_blank
find_forwards_by st [] what name = []
find_forwards_by st (f ∷ forwards) what name =
    let rest = find_forwards_by st forwards what name in
    if is_blank (zone_get st f "src")
    then rest
    else if is_blank (zone_get st f "dest")
    then rest
    else if is_text name (zone_get st f what)
    then f ∷ rest
    else rest

-- The value of the form's list: `other` of each forwarding that `findForwardsBy(own)` finds.
unfoldable pub zones_of : State → List String → String → List (Option Value)
unfolding zone_get
zones_of st [] other = []
zones_of st (f ∷ forwards) other = zone_get st f other ∷ zones_of st forwards other

unfoldable pub uci_value : State → List String → String → String → String → List (Option Value)
unfolding zones_of find_forwards_by
uci_value st forwards own other name = zones_of st (find_forwards_by st forwards own name) other

-- The first loop of `save`: the forwardings of the zone get the other zones one by one, and those that
-- are left over are removed. The result is the state and the zones that are left.
unfoldable pub assign_forwards :
    String → String → State → String → List String → List String → State × List String
assign_forwards own other st zone [] dests = (st, dests)
assign_forwards own other st zone (f ∷ fwds) dests =
    let skip = assign_forwards own other st zone fwds dests in
    let drop = assign_forwards own other (remove st "firewall" f) zone fwds [] in
    if is_text zone (zone_get st f own)
    then elim dests [
      | [] ↦ drop
      | d ∷ ds ↦ assign_forwards own other (zone_set st f other (str d)) zone fwds ds
    ]
    else skip

-- The two options of a new forwarding, `src` first.
unfoldable pub set_ends : Bool → State → String → String → String → State
unfolding zone_set
set_ends true st sid zone d = zone_set (zone_set st sid "src" (str zone)) sid "dest" (str d)
set_ends false st sid zone d = zone_set (zone_set st sid "src" (str d)) sid "dest" (str zone)

-- The second loop: a new forwarding for each zone that is left; `out` is true for the list `out`.
-- `draw i` are the names drawn for the i-th new section.
unfoldable pub new_forwards :
    Bool → ℕ → (ℕ → ℕ → String) → ℕ → State → String → List String → Option State
unfolding set_ends
new_forwards out fuel draw i st zone [] = some st
new_forwards out fuel draw i st zone (d ∷ dests) =
    elim (add fuel (draw i) st "firewall" "forwarding" none) [
      | none ↦ none
      | some (sid, st') ↦
          new_forwards out fuel draw (suc i) (set_ends out st' sid zone d) zone dests
    ]

-- out.save(sid) and inp.save(sid), for a zone that has the name `zone`: the forwardings and the state
-- after `loadForwards`
unfoldable pub save_forwards :
    Bool
    → ℕ
    → (ℕ → ℕ → String)
    → State
    → String
    → List String
    → List String
    → Option (List String × State)
unfolding assign_forwards new_forwards load_forwards
save_forwards out fuel draw st zone forwards dests =
    let own = if out then "src" else "dest" in
    let other = if out then "dest" else "src" in
    let assigned = assign_forwards own other st zone forwards dests in
    elim (new_forwards out fuel draw 0 assigned.0 zone assigned.1) [
      | none ↦ none
      | some st' ↦ some (load_forwards st')
    ]
