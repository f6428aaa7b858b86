-- ===== src/Cbi/Map.antt =====
-- A form on a package: `Map` of cbi.js.
pub mod Readonly
pub mod Frame
use xluci.Prelude.{
  ℕ, String, Bool, true, false, ◌&&◌, not, none, List, [], ◌∷◌, ◌++◌, if◌then◌else◌,
}
use xluci.Prelude.Dict.{Dict}
use xluci.Session.{AclCache, writable}
use xluci.Uci.Store.{Section, State}
use xluci.Uci.Order.{Call}
use xluci.Uci.Save.{load, unload, save}
use xluci.Cbi.Js.{Js}
use xluci.Cbi.Run.{Run, returns, throws, then_run}
use xluci.Cbi.Field.{Page}
use xluci.Cbi.Form.{additional_packages}
use xluci.Cbi.Tree.{Node, node, Nodes, done, next, save_nodes, validate_node}

pub record FormMap : Type 0 where
  pub uci_package : String
  pub sections : Nodes
  pub readonly : Bool
  -- options.save, and the handlers of the event that it triggers
  pub on_save : State → Run

-- this.sections.push(w), as `section` and `subsection` do
unfoldable pub push_node : Nodes → Node → Nodes
push_node done w = next w done
push_node (next n ns) w = next n (push_node ns w)

-- section(widget, uci_type, options), with the new section
unfoldable pub section : FormMap → Node → FormMap
unfolding push_node
section m w = record m { sections = push_node m.sections w }

-- The packages that the fields of the sections name, not those of the subsections.
unfoldable pub more_packages : Nodes → List String
unfolding additional_packages
more_packages done = []
more_packages (next (node part subsections) ns) = additional_packages part.form ++ more_packages ns

unfoldable pub packages : FormMap → List String
unfolding more_packages
packages m = m.uci_package ∷ more_packages m.sections

unfoldable pub all_writable : AclCache → List String → Bool
all_writable acls [] = true
all_writable acls (p ∷ l) =
    let rest = all_writable acls l in if writable acls p then rest else false

-- load(): the packages that are asked for, the map and the store; `loadCallback` calls the `load` of
-- the fields, which none of the modelled ones has
unfoldable pub load_map :
    AclCache → (String → Dict Section) → FormMap → State → List String × (FormMap × State)
unfolding all_writable packages load
load_map acls fetch m st =
    let pkgs = packages m in
    let (asked, st') = load fetch st pkgs in
    (asked, (record m { readonly = if all_writable acls pkgs then m.readonly else true }, st'))

module _ (js : Js) (page : Page) where
  -- save(), where no `save` of a field leaves a request pending: options.save is called at the end
  unfoldable pub save_map : FormMap → State → Run
  unfolding save_nodes
  save_map m st =
      if m.readonly
      then returns st
      else then_run (save_nodes js page m.uci_package m.sections none st) m.on_save

-- The verdicts of all sections, one after the other.
unfoldable pub validate_nodes : (String → ℕ) → String → Nodes → State → Bool × State
unfolding validate_node
validate_nodes errors conf done st = (true, st)
validate_nodes errors conf (next n ns) st =
    let (ok, st1) = validate_node errors conf n none st in
    let (rest, st2) = validate_nodes errors conf ns st1 in (ok && rest, st2)

-- validate()
unfoldable pub validate_map : (String → ℕ) → FormMap → State → Bool × State
unfolding validate_nodes
validate_map errors m st = validate_nodes errors m.uci_package m.sections st

-- What `send` ends with: it is rejected, an exception ends it, or the calls of uci.save(), the packages that are asked for
-- then, the map and the store.
pub data Sent : Type 0 where
  rejected : State → Sent
  thrown : State → Sent
  sent : List Call → List String → FormMap → State → Sent

-- send()
unfoldable pub send :
    Js
    → Page
    → (String → ℕ)
    → AclCache
    → (ℕ → String)
    → (String → Dict Section)
    → FormMap
    → State
    → Sent
unfolding validate_map save_map save load_map
send js page errors acls responses fetch m st =
    let (ok, st1) = validate_map errors m st in
    if not ok then rejected st1 else elim (save_map js page m st1) [
      | throws st2 ↦ thrown st2
      | returns st2 ↦
          let (calls, st3) = save responses fetch st2 in
          let (asked, (m', st4)) = load_map acls fetch m st3 in sent calls asked m' st4
    ]

-- revert()
unfoldable pub revert : FormMap → State → State
unfolding packages unload
revert m st = unload st (packages m)

-- reset(), up to the drawing of the form: the packages are forgotten and loaded again
unfoldable pub reset :
    AclCache → (String → Dict Section) → FormMap → State → List String × (FormMap × State)
unfolding revert load_map
reset acls fetch m st = load_map acls fetch m (revert m st)
