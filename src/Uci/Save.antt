-- ===== src/Uci/Save.antt =====
-- `load`, `unload` and `save` of uci.js: what is sent to the router and what is fetched again. The
-- replies of the router are arguments: the sections of a package, and the names of added sections.
pub mod Loaded
pub mod Unloaded
pub mod Router
pub mod Sets
pub mod Refined
use Prim.Native.Nat.{Ordering}
use Prim.Native.String.{compare}
use xluci.Prelude.{
  ℕ, suc, ◌+◌, String, Bool, true, false, ◌&&◌, not, Option, none, some, List, [], ◌∷◌, ◌++◌, map,
  length, if◌then◌else◌,
}
use xluci.Prelude.Dict.{Dict, lookup, put, remove}
use xluci.Uci.Store.{Value, Section, Deletion, whole, opts, State}
use xluci.Uci.Access.{is_some}
use xluci.Uci.Order.{Call, call_load, call_add, call_set, call_delete, reorder_sections}

-- The packages that `load` asks for: those not loaded, each once. `seen` is its variable.
unfoldable pub missing : State → Dict (Unit {0}) → List String → List String
unfolding is_some
missing st seen [] = []
missing st seen (p ∷ packages) =
    let skip = missing st seen packages in
    let ask = p ∷ missing st (put p tt seen) packages in
    if not (is_some (lookup p seen)) && not (is_some (lookup p st.values)) then ask else skip

-- self.state.values[pkgs[i]] = responses[i]
unfoldable pub store_replies :
    (String → Dict Section) → List String → Dict (Dict Section) → Dict (Dict Section)
store_replies fetch [] v = v
store_replies fetch (p ∷ pkgs) v = store_replies fetch pkgs (put p (fetch p) v)

-- load(packages): the packages that were asked for, and the state after the replies
unfoldable pub load : (String → Dict Section) → State → List String → List String × State
unfolding missing store_replies
load fetch st packages =
    let pkgs = missing st [] packages in
    (pkgs, record st { values = store_replies fetch pkgs st.values })

-- unload(packages)
unfoldable pub unload : State → List String → State
unload st [] = st
unload st (p ∷ packages) =
    unload
      (record st {
        values = remove p st.values;
        creates = remove p st.creates;
        changes = remove p st.changes;
        deletes = remove p st.deletes;
      })
      packages

-- The inner loops of `save`.
unfoldable pub add_calls : String → Dict Section → List Call
add_calls conf [] = []
add_calls conf ((sid, s) ∷ n) = call_add conf s.type s.create s.options ∷ add_calls conf n

unfoldable pub set_calls : String → Dict (Dict Value) → List Call
set_calls conf [] = []
set_calls conf ((sid, o) ∷ c) = call_set conf sid o ∷ set_calls conf c

-- (o === true) ? undefined : o
unfoldable pub options_arg : Deletion → Option (List String)
options_arg whole = none
options_arg (opts l) = some l

unfoldable pub delete_calls : String → Dict Deletion → List Call
unfolding options_arg
delete_calls conf [] = []
delete_calls conf ((sid, o) ∷ d) = call_delete conf sid (options_arg o) ∷ delete_calls conf d

-- for (var conf in o) …
unfoldable pub each_package {ℓ} :
    {V : Type ℓ} → (String → Dict V → List Call) → Dict (Dict V) → List Call
each_package f [] = []
each_package f ((conf, m) ∷ o) = f conf m ++ each_package f o

-- What `save` sends in one batch: the additions, the changes, the deletions.
unfoldable pub save_calls : State → List Call
unfolding each_package add_calls set_calls delete_calls
save_calls st =
    each_package add_calls st.creates
    ++ (each_package set_calls st.changes ++ each_package delete_calls st.deletes)

-- pkgs[conf] = true
unfoldable pub mark {ℓ} : {V : Type ℓ} → Dict V → Dict (Unit {0}) → Dict (Unit {0})
mark [] pkgs = pkgs
mark ((conf, _) ∷ o) pkgs = mark o (put conf tt pkgs)

unfoldable pub str_leb : String → String → Bool
str_leb a b = elim (compare a b) [ Ordering.gt ↦ false | _ ↦ true ]

unfoldable pub insert_name : String → List String → List String
unfolding str_leb
insert_name x [] = x ∷ []
insert_name x (y ∷ ys) = if str_leb x y then x ∷ y ∷ ys else y ∷ insert_name x ys

-- L.toArray(pkgs) (luci2.js): the keys of the object, sorted
unfoldable pub sorted_keys {ℓ} : {V : Type ℓ} → Dict V → List String
unfolding insert_name
sorted_keys [] = []
sorted_keys ((k, v) ∷ o) = insert_name k (sorted_keys o)

unfoldable pub dirty : State → List String
unfolding mark sorted_keys
dirty st = sorted_keys (mark st.deletes (mark st.changes (mark st.creates [])))

-- snew[i]['.name'] = responses[i], over the created sections of a package from number `i` on
unfoldable pub rename_package : (ℕ → String) → ℕ → Dict Section → Dict Section
rename_package responses i [] = []
rename_package responses i ((sid, s) ∷ n) =
    (sid, record s { name = responses i }) ∷ rename_package responses (suc i) n

unfoldable pub rename : (ℕ → String) → ℕ → Dict (Dict Section) → Dict (Dict Section)
unfolding rename_package
rename responses i [] = []
rename responses i ((conf, m) ∷ n) =
    (conf, rename_package responses i m) ∷ rename responses (i + length m) n

-- save(): the calls of the batch, those of `reorderSections`, and those of `load`, with the state at
-- the end
unfoldable pub save : (ℕ → String) → (String → Dict Section) → State → List Call × State
unfolding save_calls dirty rename unload load
save responses fetch st =
    let pkgs = dirty st in
    let (orders, st1) = reorder_sections (record st { creates = rename responses 0 st.creates }) in
    let (asked, st2) = load fetch (unload st1 pkgs) pkgs in
    (save_calls st ++ (orders ++ map call_load asked), st2)
