-- ===== src/Cbi/Field.antt =====
-- The objects of the fields of a form, as `AbstractValue` of cbi.js makes them, and their places in
-- the store and in the document.
use Prim.Native.Char.{code}
use Prim.Native.String.{◌++◌ as append}
use text.Mathlib.Text.{◌==◌ as str_eq}
use xluci.Prelude.{
  ℕ, String, Bool, true, false, Option, none, some, List, [], ◌∷◌, ◌++◌, ◌==◌, map, if◌then◌else◌,
}
use xluci.Prelude.Dict.{Dict}
use xluci.Uci.Store.{Value, State}
use xluci.Uci.Access.{get_option}
use xluci.Cbi.Js.{join}
use xluci.Cbi.Run.{Run}

-- The classes of fields that differ in what they read or write.
pub data Widget : Type 0 where
  abstract_value : Widget
  checkbox_value : Widget
  multi_value : Widget
  combo_box : Widget
  dynamic_list : Widget
  dummy_value : Widget
  network_list : Widget

-- `options` of a field; `initial`, `enabled` and the names of the package, the section and the option
-- may be undefined.
pub record Options : Type 0 where
  pub placeholder : String
  pub datatype : String
  pub optional : Bool
  pub keep : Bool
  pub initial : Option Value
  pub enabled : Option String
  pub disabled : Option String
  pub multiple : Bool
  pub caption : Option String
  pub uci_package : Option String
  pub uci_section : Option String
  pub uci_option : Option String

-- What a dependency asks of the value of a field: that it is set or not, that it equals a text or a
-- number, or that it passes a function or a regular expression.
pub data Condition : Type 0 where
  is_set : Bool → Condition
  equals_text : String → Condition
  equals_number : ℕ → Condition
  passes : (Option Value → Bool) → Condition

pub record Field : Type 0 where
  pub widget : Widget
  pub name : String
  pub options : Options
  pub choices : Option (List (String × String))
  pub has_empty : Bool
  -- `disabled` of the instances that were rendered, by section
  pub instance : Dict Bool
  pub dependencies : List (Dict Condition)
  -- the objects that depend on this one, by name: places in the list of the section's fields
  pub rdependency : Dict ℕ
  -- `save` of a class or a view that has its own, which may call anything
  pub own_save : Option (String → State → Run)

-- Options as the caller gives them: each may be undefined.
pub record Given : Type 0 where
  pub placeholder : Option String
  pub datatype : Option String
  pub optional : Option Bool
  pub keep : Option Bool
  pub rest : Options

unfoldable pub default {ℓ} : {A : Type ℓ} → Option A → A → A
default none a = a
default (some b) a = b

-- L.defaults(options, { placeholder: '', datatype: 'string', optional: false, keep: true })
unfoldable pub defaults : Given → Options
unfolding default
defaults g = record g.rest {
  placeholder = default g.placeholder "";
  datatype = default g.datatype "string";
  optional = default g.optional false;
  keep = default g.keep true;
}

-- init(name, options), on a new object of the class
unfoldable pub init_field : Widget → String → Given → Field
unfolding defaults
init_field widget name options = record {
  widget = widget;
  name = name;
  options = defaults options;
  choices = none;
  has_empty = false;
  instance = [];
  dependencies = [];
  rdependency = [];
  own_save = none;
}

-- w.save = function(sid) { … }
unfoldable pub with_save : (String → State → Run) → Field → Field
with_save g f = record f { own_save = some g }

-- a || b, for names
unfoldable pub or_name : Option String → String → String
or_name none b = b
or_name (some a) b = if str_eq a "" then b else a

-- ListValue.value(k, v): a choice with its caption
unfoldable pub add_choice : Field → String → Option String → Field
unfolding default or_name
add_choice f k v = record f {
  choices = some (default f.choices [] ++ (k, or_name v k) ∷ []);
  has_empty = if str_eq k "" then true else f.has_empty;
}

-- What jQuery reads of the document, by the id of the element.
pub record Page : Type 0 where
  -- $('#' + id).val(), where the element is there and has a value
  pub val : String → Option Value
  -- $('#' + id).prop('checked')
  pub checked : String → Option Bool
  -- the values of the inputs below the element that are ticked
  pub ticked : String → List String
  -- the values of the inputs below the element
  pub inputs : String → List String

-- A path of the store.
pub record Path3 : Type 0 where
  pub config : String
  pub section : String
  pub option : String

-- ucipath(sid), in a map of the package `conf`
unfoldable pub ucipath : String → Field → String → Path3
unfolding or_name
ucipath conf f sid = record {
  config = or_name f.options.uci_package conf;
  section = or_name f.options.uci_section sid;
  option = or_name f.options.uci_option f.name;
}

-- AbstractValue.ucivalue(sid)
unfoldable pub base_ucivalue : String → State → Field → String → Option Value
unfolding ucipath
base_ucivalue conf st f sid =
    let uci = ucipath conf f sid in
    elim (get_option st uci.config uci.section uci.option) [
      | none ↦ f.options.initial
      | some v ↦ some v
    ]

-- this.id(sid), which is this.ownerSection.id('field', sid || '__unknown__', this.name)
unfoldable pub without_dots : String → String
without_dots String.[] = String.[]
without_dots (String.◌∷◌ c s) =
    let rest = without_dots s in if code c == b'.' then append "_" rest else String.◌∷◌ c rest

-- AbstractSection.id(kind, …) of a section of the type `type` in a map of the package `conf`
unfoldable pub section_id : String → String → String → List String → String
unfolding without_dots join
section_id conf type kind args = join "_" (kind ∷ conf ∷ type ∷ map without_dots args)

-- The place of a field in the document: the package of its map, the type of its section, its section.
unfoldable pub field_id : String → String → Field → String → String
unfolding section_id or_name
field_id conf type f sid =
    section_id conf type "field" (or_name (some sid) "__unknown__" ∷ f.name ∷ [])
