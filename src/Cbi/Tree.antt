-- ===== src/Cbi/Tree.antt =====
-- The sections of a form with their subsections, on the store: `TypedSection`, `NamedSection` and
-- `DummySection` of cbi.js.
pub mod Frame
pub mod Writable
pub mod Saved
use text.Mathlib.Text.{◌==◌ as str_eq}
use xluci.Prelude.{
  ℕ, ◌+◌, String, Bool, false, ◌&&◌, not, Option, none, some, List, [], ◌∷◌, map, ◌==◌, all_b,
  get_elem?, if◌then◌else◌,
}
use xluci.Prelude.Dict.{Dict}
use xluci.Text.{codes}
use xluci.Validation.Names.{is_word}
use xluci.Uci.Store.{Section, State}
use xluci.Uci.Access.{is_some, get_section, remove}
use xluci.Uci.Create.{add}
use xluci.Uci.Sections.{sections}
use xluci.Cbi.Js.{Js}
use xluci.Cbi.Field.{Field, Page, section_id}
use xluci.Cbi.Run.{Run, returns, then_run}
use xluci.Cbi.Value.{call_save}
use xluci.Cbi.Form.{Form}

-- The classes of sections.
pub data Kind : Type 0 where
  typed_section : Kind
  named_section : Kind
  dummy_section : Kind

-- A section of the form: `filter(section, parent_sid)`, and whether `sort(a, b)` is not positive.
pub record Part : Type 0 where
  pub kind : Kind
  pub form : Form
  pub filter : Section → Option String → Bool
  pub sort : Section → Section → Bool

mutual
  pub data Node : Type 0 where
    node : Part → Nodes → Node

  -- `subsections`
  pub data Nodes : Type 0 where
    done : Nodes
    next : Node → Nodes → Nodes

-- s['.type'] == this.uci_type, and the filter
unfoldable pub matching : Part → Option String → List Section → List Section
matching part parent [] = []
matching part parent (s ∷ l) =
    let rest = matching part parent l in
    if str_eq s.type part.form.uci_type && part.filter s parent then s ∷ rest else rest

-- s2.sort(this.sort), which is stable
unfoldable pub insert_section : (Section → Section → Bool) → Section → List Section → List Section
insert_section before x [] = x ∷ []
insert_section before x (y ∷ l) = if before x y then x ∷ y ∷ l else y ∷ insert_section before x l

unfoldable pub sort_sections : (Section → Section → Bool) → List Section → List Section
unfolding insert_section
sort_sections before [] = []
sort_sections before (x ∷ l) = insert_section before x (sort_sections before l)

-- The first section of the name.
unfoldable pub named : String → List Section → List Section
named name [] = []
named name (s ∷ l) = if str_eq s.name name then s ∷ [] else named name l

unfoldable pub names_of : List Section → List String
names_of l = map (λ s. s.name) l

-- The names of the sections that getUCISections(parent_sid) returns, in a map of the package `conf`;
-- with the state, since `sections` numbers the created ones.
unfoldable pub uci_sections : String → Part → Option String → State → List String × State
unfolding matching sort_sections named names_of
uci_sections conf part parent st = elim part.kind [
  | typed_section ↦
      let (all, st') = sections st conf none in
      (names_of (sort_sections part.sort (matching part parent all)), st')
  | named_section ↦
      let (all, st') = sections st conf none in (names_of (named part.form.uci_type all), st')
  | dummy_section ↦ (part.form.uci_type ∷ [], st)
]

-- save(sid) of the fields, for (var f in this.fields)
unfoldable pub save_fields :
    Js → Page → String → String → List Field → Dict ℕ → String → State → Run
unfolding call_save
save_fields js page conf type made [] sid st = returns st
save_fields js page conf type made ((name, w) ∷ fields) sid st = elim (get_elem? made w) [
  | none ↦ save_fields js page conf type made fields sid st
  | some f ↦
      then_run (call_save js page conf type f sid st)
        (save_fields js page conf type made fields sid)
]

-- for (var i = 0; i < s.length; i++)
unfoldable pub each_sid : (String → State → Run) → List String → State → Run
each_sid f [] st = returns st
each_sid f (sid ∷ sids) st = then_run (f sid st) (each_sid f sids)

module _ (js : Js) (page : Page) (conf : String) where
  -- The fields of a section, unless it is read-only.
  unfoldable pub save_part : Part → String → State → Run
  unfolding save_fields
  save_part part sid st =
      if part.form.readonly
      then returns st
      else save_fields js page conf part.form.uci_type part.form.made part.form.fields sid st

  unfoldable mutual
    unfolding uci_sections save_part each_sid

    -- AbstractSection.save(parent_sid)
    pub save_node : Node → Option String → State → Run
    save_node (node part subsections) parent st =
        let (sids, st') = uci_sections conf part parent st in
        each_sid (λ sid st. then_run (save_part part sid st) (save_nodes subsections (some sid)))
          sids st'

    -- the sections of a list, one after the other
    pub save_nodes : Nodes → Option String → State → Run
    save_nodes done parent st = returns st
    save_nodes (next n ns) parent st = then_run (save_node n parent st) (save_nodes ns parent)

-- The number of erroneous fields in the items of the sections; `errors` counts them in the item of the
-- given id, once the validators ran.
unfoldable pub count_errors : (String → ℕ) → String → String → List String → ℕ
unfolding section_id
count_errors errors conf type [] = 0
count_errors errors conf type (sid ∷ sids) =
    errors (section_id conf type "sectionitem" (sid ∷ [])) + count_errors errors conf type sids

-- AbstractSection.validate(parent_sid)
unfoldable pub validate_node : (String → ℕ) → String → Node → Option String → State → Bool × State
unfolding uci_sections count_errors
validate_node errors conf (node part subsections) parent st =
    let (sids, st') = uci_sections conf part parent st in
    (count_errors errors conf part.form.uci_type sids == 0, st')

-- handleSID: whether a typed name of a new section is accepted
unfoldable pub handle_sid : State → String → String → Bool
unfolding is_word is_some get_section
handle_sid st conf name =
    if not (all_b is_word (codes name)) then false else not (is_some (get_section st conf name))

-- TypedSection.add(name, parent_sid)
unfoldable pub add_section :
    ℕ → (ℕ → String) → String → Part → Option String → State → Option (String × State)
unfolding add
add_section fuel draw conf part name st = add fuel draw st conf part.form.uci_type name

-- TypedSection.remove(sid, parent_sid)
unfoldable pub remove_section : String → String → State → State
unfolding remove
remove_section conf sid st = remove st conf sid
