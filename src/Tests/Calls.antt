-- ===== src/Tests/Calls.antt =====
-- Calls of the router, rights and firewall zones at concrete inputs.
use xluci.Prelude.{
  ℕ, String, true, false, Option, none, some, List, [], ◌∷◌, ◌≡◌, ◌↔◌, refl, arith, get_elem?, ◌++◌,
  All, if◌then◌else◌,
}
use text.Mathlib.Text.{◌==◌}
use xluci.Prelude.Dict.{lookup, lookup2}
use xluci.Rpc.Json.{Json, num, nil, cons, tag, same_tag}
use xluci.Rpc.Reply.{Message, interpret}
use xluci.Rpc.Batch.{
  Rpc, Invocation, find, flush, invoke_all, start_batch, call_cb, done, many, read,
}
use xluci.Rpc.Batch.Pending.{messages}
use xluci.Rpc.Batch.Replies.{interpreted, batch-round_trip}
use xluci.Session.{AclCache}
use xluci.Uci.Store.{str, list, Section, State, field}
use xluci.Uci.Access.{contains}
use xluci.Uci.Access.ReadWrite.{writable as section_writable}
use xluci.Uci.Create.{taken, new_section}
use xluci.Firewall.{
  zone_get, zone_network, add_network, del_network, pop, create_zone, find_zone_by_network,
  find_zone_by_name,
}
use xluci.Firewall.Found.{covers, named, find_zones_iff}
use xluci.Firewall.Networks.{contains-add_network, del_network-pop}
use xluci.Firewall.Zones.{create_zone_lem}

abbrev idle : Rpc
idle = record { id = 1; batch = none; requests = [] }

abbrev alive : Invocation
alive = record {
  object = "session";
  method = "access";
  params = [];
  expect = some ("", num 7);
  filter = none;
}

abbrev answer : Message
answer = record { jsonrpc = "2.0"; result = some (cons (num 0) (cons (num 3) nil)) }

abbrev refusal : Message
refusal = record { jsonrpc = "2.0"; result = some (cons (num 6) nil) }

batch-round_trip_example :
    (l : List (ℕ × Option Json)) × (st' : Rpc) × ((flush
        (invoke_all (start_batch idle) (alive ∷ alive ∷ []))).1
      ≡ some (messages 1 (alive ∷ alive ∷ [])))
    × (call_cb
          (flush (invoke_all (start_batch idle) (alive ∷ alive ∷ []))).0
          (messages 1 (alive ∷ alive ∷ []))
          (answer ∷ refusal ∷ [])
          (many [])
        ≡ done (many l) st')
    × ((j : ℕ) (v : Option Json)
        → get_elem? (some (num 3) ∷ some (num 7) ∷ []) j ≡ some v
        → read j l ≡ some v)
    × ((k : ℕ) → find k st'.requests ≡ find k [])
unfolding interpreted interpret tag same_tag find
batch-round_trip_example =
    batch-round_trip idle (alive ∷ alive ∷ []) (answer ∷ refusal ∷ [])
      (some (num 3) ∷ some (num 7) ∷ []) refl (λ k le. refl) refl

abbrev acls : AclCache
acls = ("uci", ("network", "read" ∷ "write" ∷ []) ∷ ("system", "read" ∷ []) ∷ []) ∷ []

abbrev wan_zone : Section
wan_zone = record {
  type = "zone";
  name = "cfg1";
  create = none;
  anonymous = true;
  index = 0;
  options = ("name", str "wan") ∷ ("network", list ("wan" ∷ "wan6" ∷ [])) ∷ [];
}

abbrev walls : State
walls = record {
  newidx = 0;
  values = ("firewall", ("cfg1", wan_zone) ∷ []) ∷ [];
  creates = [];
  changes = [];
  deletes = [];
  reorder = [];
}

contains-add_network_example :
    contains (zone_network (add_network walls "cfg1" "lan") "cfg1") "lan" ≡ true
unfolding section_writable lookup2 lookup
contains-add_network_example = contains-add_network walls "cfg1" "lan" "lan" refl

del_network-pop_example : zone_network (del_network walls "cfg1" "wan") "cfg1" ≡ (
    if contains (zone_network walls "cfg1") "wan"
    then pop (zone_network walls "cfg1")
    else zone_network walls "cfg1")
unfolding section_writable lookup2 lookup
del_network-pop_example = del_network-pop walls "cfg1" "wan" refl

abbrev draws : ℕ → String
draws k = "new0a"

create_zone_lem_example :
    (sid : String) × (st' : State) × (create_zone 1 draws walls ("cfg1" ∷ []) "guest"
      ≡ some (sid, "cfg1" ∷ sid ∷ [], st'))
    × (taken walls "firewall" sid ≡ false)
    × ((k : String)
        → zone_get st' sid k ≡ (
            if "output" == k
            then some (str "ACCEPT")
            else if "forward" == k
            then some (str "REJECT")
            else if "input" == k
            then some (str "ACCEPT")
            else if "name" == k
            then some (str "guest")
            else field (new_section walls "zone" none sid) k))
unfolding taken lookup2 lookup
create_zone_lem_example = create_zone_lem 0 1 draws walls ("cfg1" ∷ []) "guest" (omega arith) refl

find_zones_iff_example :
    ((find_zone_by_network walls ("cfg1" ∷ []) "wan6" none ≡ some "cfg1") ↔ (
      (a : List String) × (b : List String) × ("cfg1" ∷ [] ≡ a ++ "cfg1" ∷ b)
      × (covers walls "wan6" "cfg1" ≡ true)
      × All (λ y. covers walls "wan6" y ≡ false) b))
    × ((find_zone_by_name walls ("cfg1" ∷ []) "wan" none ≡ some "cfg1") ↔ (
        (a : List String) × (b : List String) × ("cfg1" ∷ [] ≡ a ++ "cfg1" ∷ b)
        × (named walls "wan" "cfg1" ≡ true)
        × All (λ y. named walls "wan" y ≡ false) b))
find_zones_iff_example = find_zones_iff walls ("cfg1" ∷ []) "wan6" "wan" "cfg1"
