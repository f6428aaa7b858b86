-- ===== src/Tests/Forms.antt =====
-- A form on the section lan: a check box, and an input that depends on it.
use mathlib.Core.Path.{subst}
use Prim.Native.String.{◌++◌ as append}
use text.Mathlib.Text.{◌==◌}
use xluci.Prelude.{
  String, true, false, none, some, List, [], ◌∷◌, ◌≡◌, refl, if◌then◌else◌, inl, arith, get_elem?,
}
use xluci.Prelude.Dict.{lookup, put, lookup2, put2}
use xluci.Session.{AclCache, writable, has_acl, acl_entry}
use xluci.Validation.Names.{is_word, is_alnum}
use xluci.Text.{is_digit, is_letter}
use xluci.Uci.Store.{str, flag, Section, State, is_meta, field, assign}
use xluci.Uci.Access.{
  get_option, base_option, hides, changed, loaded, contains, is_some, is_whole, get_section,
}
use xluci.Uci.Access.ReadWrite as Rw
use xluci.Uci.Create.{taken, new_section, add_as}
use xluci.Cbi.Js.{Js, is_true, loosely_equal, loosely, join}
use xluci.Cbi.Field.{
  abstract_value, checkbox_value, Given, Options, Field, Page, init_field, with_save, defaults,
  default, is_set, ucipath, or_name, base_ucivalue, field_id, section_id, without_dots,
}
use xluci.Cbi.Run.{Run, returns, state_of}
use xluci.Cbi.Value.{wlan_freq_save, ucivalue, formvalue, nothing_if_empty, is_disabled, save_field}
use xluci.Cbi.Value.Checked.{ucivalue-save_checkbox}
use xluci.Cbi.Form.{Form, init_form, tab, taboption, option, push_field}
use xluci.Cbi.Depends.{
  one, dependency, each_set, known_only, modify, add_dependent, register, extend, add_dependency,
  depends, set_disabled, render_field, toggle, value_of, any_met, meets, holds, is_unset,
}
use xluci.Cbi.Depends.Built.{Step, to_option, to_depends, to_render, step, steps, toggle-built}
use xluci.Cbi.Depends.Toggled.{Decides}
use xluci.Cbi.Tree.{Part, typed_section, node, done, next, handle_sid, add_section, save_fields}
use xluci.Cbi.Tree.Frame.{Keeps, UnnamedNode, wlan_freq_save-Keeps}
use xluci.Cbi.Tree.Saved.{Ready, ucivalue-save_fields}
use xluci.Cbi.Map.{FormMap, packages, more_packages, all_writable, load_map, save_map}
use xluci.Cbi.Form.{additional_packages, tab_fields, at_places, packages_of}
use xluci.Cbi.Map.Readonly.{save_map-load_map}
use xluci.Cbi.Map.Frame.{save_map-other}

-- What a run of a form computes with.
program : Unit {0}
unfolding with_save lookup put lookup2 put2 writable has_acl acl_entry is_word is_alnum is_digit
    is_letter is_meta field assign get_option base_option hides changed loaded contains is_some
    is_whole get_section Rw.writable taken new_section add_as is_true loosely_equal loosely join
    init_field defaults default ucipath or_name base_ucivalue field_id section_id without_dots
    ucivalue formvalue nothing_if_empty is_disabled init_form tab taboption option push_field
    dependency each_set known_only modify add_dependent register extend add_dependency depends
    set_disabled render_field toggle value_of any_met meets holds is_unset step steps handle_sid
    add_section packages more_packages all_writable additional_packages tab_fields at_places
    packages_of UnnamedNode
program = tt

abbrev script : Js
script = record { number_of = λ s. if s == "1" then some 1 else none; text_of = λ n. "1" }

abbrev document : Page
document = record {
  val = λ id. if id == "field_network_interface_lan_server" then some (str "10.0.0.1") else none;
  checked = λ id. some true;
  ticked = λ id. [];
  inputs = λ id. [];
}

abbrev plain_options : Given
plain_options = record {
  placeholder = none;
  datatype = none;
  optional = none;
  keep = none;
  rest = record {
    placeholder = "";
    datatype = "";
    optional = false;
    keep = true;
    initial = none;
    enabled = some "on";
    disabled = some "off";
    multiple = false;
    caption = none;
    uci_package = none;
    uci_section = none;
    uci_option = none;
  };
}

abbrev building : List Step
building =
    to_option (some checkbox_value) "enable" plain_options
    ∷ to_option (some abstract_value) "server" plain_options
    ∷ to_depends 1 "server" (one "enable" none) false
    ∷ to_render "lan" 0
    ∷ to_render "lan" 1
    ∷ []

abbrev options : Options
options = record plain_options.rest { datatype = "string" }

abbrev enable : Field
enable = record {
  widget = checkbox_value;
  name = "enable";
  options = options;
  choices = none;
  has_empty = false;
  instance = ("lan", false) ∷ [];
  dependencies = [];
  rdependency = ("server", 1) ∷ [];
  own_save = none;
}

abbrev server : Field
server = record {
  widget = abstract_value;
  name = "server";
  options = options;
  choices = none;
  has_empty = false;
  instance = ("lan", false) ∷ [];
  dependencies = (("enable", is_set true) ∷ []) ∷ [];
  rdependency = [];
  own_save = none;
}

abbrev lan : Section
lan = record {
  type = "interface";
  name = "lan";
  create = none;
  anonymous = false;
  index = 0;
  options = ("proto", str "static") ∷ [];
}

abbrev store : State
store = record {
  newidx = 0;
  values = ("network", ("lan", lan) ∷ []) ∷ [];
  creates = [];
  changes = [];
  deletes = [];
  reorder = [];
}

abbrev form : Form
form = record {
  uci_type = "interface";
  made = enable ∷ server ∷ [];
  fields = ("enable", 0) ∷ ("server", 1) ∷ [];
  tabs = record { id = "__default__"; fields = 0 ∷ 1 ∷ [] } ∷ [];
  selected = some 0;
  readonly = false;
  teasers = none;
}

abbrev part : Part
part = record { kind = typed_section; form = form; filter = λ s p. true; sort = λ a b. true }

abbrev map_of : FormMap
map_of = record {
  uci_package = "network";
  sections = next (node part done) done;
  readonly = false;
  on_save = returns;
}

abbrev guest : AclCache
guest = ("uci", ("network", "read" ∷ []) ∷ []) ∷ []

toggle-built_example :
    Decides script
      (value_of script document "network" store
        (steps (init_form "interface" false none) building)
        "lan")
      1
      server
      "lan"
      (toggle script document "network" store
        (steps (init_form "interface" false none) building)
        1
        server
        "lan")
unfolding program
toggle-built_example =
    toggle-built script document "network" store "interface" false none building "lan" 1 server
      false refl refl

ucivalue-save_checkbox_example :
    (st : State) × (save_field script document "network" "interface" enable "lan" store
      ≡ returns st)
    × (ucivalue script "network" st enable "lan" ≡ some (flag true))
unfolding program
ucivalue-save_checkbox_example =
    ucivalue-save_checkbox script document "network" "interface" enable "lan" store "on" "off" refl
      refl refl refl refl refl (inl refl) refl refl refl

enable_apart :
    (enable.name == server.name) ≡ false
    → (f : Field) → get_elem? form.made 0 ≡ some f
    → (or_name f.options.uci_option f.name == "server") ≡ false
unfolding program
enable_apart e f k =
    let is : enable ≡ f = ground (arith, k) in
    subst (λ x. (or_name x.options.uci_option x.name == "server") ≡ false) is refl

enable-Ready :
    (f : Field)
    → get_elem? form.made 0 ≡ some f
    → Ready script document "network" "interface" "lan" f
unfolding program
enable-Ready f k =
    let is : enable ≡ f = ground (arith, k) in
    subst (Ready script document "network" "interface" "lan") is (refl, (false, refl))

server-Ready :
    (f : Field)
    → get_elem? form.made 1 ≡ some f
    → Ready script document "network" "interface" "lan" f
unfolding program
server-Ready f k =
    let is : server ≡ f = ground (arith, k) in
    subst (Ready script document "network" "interface" "lan") is (refl, (false, refl))

ucivalue-save_fields_example :
    (st : State) × (save_fields script document "network" "interface" form.made form.fields "lan"
        store
      ≡ returns st)
    × (ucivalue script "network" st server "lan" ≡ some (str "10.0.0.1"))
unfolding program
ucivalue-save_fields_example =
    ucivalue-save_fields script document "network" "interface" form.made "server" 1 server "lan"
      false refl form.fields store refl refl refl (enable-Ready, (server-Ready, tt))
      (refl, (refl, tt)) (enable_apart, (λ e. absurd (ground (arith, e)), tt)) (tt, tt) refl refl

save_map-load_map_example :
    save_map script document (load_map guest (λ p. []) map_of store).1.0 store ≡ returns store
unfolding program
save_map-load_map_example =
    save_map-load_map script document guest (λ p. []) map_of store store "network" (inl refl) refl

-- The field of the frequency, with its own `save`.
abbrev freq_save : String → State → Run
freq_save = wlan_freq_save document (λ sid. append "field_network_interface_" sid)

abbrev freq : Field
freq = with_save freq_save (record server { name = "_mode_freq" })

abbrev freq_map : FormMap
freq_map = record map_of {
  sections =
      next
        (node
          (record part {
            form = record form {
              made = enable ∷ freq ∷ [];
              fields = ("enable", 0) ∷ ("_mode_freq", 1) ∷ [];
            };
          })
          done)
        done;
}

freq_save-Keeps :
    (save : String → State → Run)
    → freq.own_save ≡ some save
    → (sid : String) → Keeps "network" "lan" "proto" (save sid)
unfolding with_save
freq_save-Keeps save e sid =
    let is : freq_save ≡ save = ground (arith, e) in
    subst (λ g. Keeps "network" "lan" "proto" (g sid)) is
      (wlan_freq_save-Keeps "network" "lan" "proto" script document "network"
        (λ sid. append "field_network_interface_" sid) sid refl refl refl)

save_map-other_example :
    get_option (state_of (save_map script document freq_map store)) "network" "lan" "proto"
    ≡ some (str "static")
unfolding program
save_map-other_example =
    save_map-other script document freq_map store "network" "lan" "proto" (tt, tt) refl
      ((((refl, λ save e. absurd (ground (arith, e))), ((refl, freq_save-Keeps), tt)), tt), tt)
      (λ st d. (refl, d))
