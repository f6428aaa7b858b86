-- ===== src/Cbi/Map/Readonly.antt =====
-- Which forms write nothing.
use xluci.Prelude.{String, false, List, [], ◌∷◌, ◌≡◌, arith, inl, inr, ap, ◌⊎◌}
use xluci.Prelude.Dict.{Dict}
use xluci.Session.{AclCache, writable}
use xluci.Uci.Store.{Section, State}
use xluci.Cbi.Js.{Js}
use xluci.Cbi.Run.{returns}
use xluci.Cbi.Field.{Page}
use xluci.Cbi.Map.{FormMap, packages, all_writable, load_map, save_map}

-- Membership that can be matched on.
abbrev pub In : String → List String → Type 0
In x [] = ⊥
In x (y ∷ l) = (y ≡ x) ⊎ In x l

all_writable-missing :
    (acls : AclCache) (l : List String) (p : String)
    → In p l
    → writable acls p ≡ false
    → all_writable acls l ≡ false
unfolding all_writable
all_writable-missing acls [] p here h = absurd here
all_writable-missing acls (q ∷ l) p (inl same) h = ground (arith, h, ap (writable acls) same)
all_writable-missing acls (q ∷ l) p (inr later) h =
    ground (arith, all_writable-missing acls l p later h)

-- A map that was loaded by a user who may not write all of the packages that `load` checks, which are that
-- of the map and those that fields of its own sections name, saves nothing: `save` returns the store as
-- it is, whatever the fields show. Packages that only fields of subsections name are not among them.
pub save_map-load_map :
    (js : Js) (page : Page) (acls : AclCache) (fetch : String → Dict Section) (m : FormMap)
    (st st' : State) (p : String)
    → In p (packages m)
    → writable acls p ≡ false
    → save_map js page (load_map acls fetch m st).1.0 st' ≡ returns st'
unfolding save_map load_map
save_map-load_map js page acls fetch m st st' p there h =
    ground (arith, all_writable-missing acls (packages m) p there h)
