-- ===== src/Tests/Config.antt =====
-- The configuration store at concrete states.
use xluci.Prelude.{false, none, some, [], ◌∷◌, ◌≡◌, refl}
use xluci.Prelude.Dict.{Dict, lookup, put, remove, lookup2, put2, remove2}
use xluci.Uci.Store.{str, Section, State, init, is_meta, field, assign, filter_array}
use xluci.Uci.Access.{
  get_option, set_option, get_section, base_option, hides, changed, loaded, contains, set_base,
  unset_base, undelete, push_deletion, is_whole, is_some, given,
}
use xluci.Uci.Access.ReadWrite.{writable, stored, get_option-set_option}
use xluci.Uci.Create.{taken, create_sid, truthy, choose_sid, new_section, add_as, add}
use xluci.Uci.Sections.{
  sections, gather, base_items, created_items, insert, sort, number, write_back, wanted, overlay,
  extended, entry, or_empty,
}
use xluci.Uci.Order.{swap, set_index}
use mathlib.Core.List.{Perm}
use xluci.Prelude.{ℕ, String, true, List, map, arith, eq_iff, if◌then◌else◌, get_elem?}
use text.Mathlib.Text.{◌==◌}
use xluci.Uci.Access
use xluci.Uci.Access.Removed.{get_option-remove}
use xluci.Uci.Create.Fresh.{add-fresh}
use xluci.Uci.Sections.{Item}
use xluci.Uci.Sections.Ascending.{Ascending, content, sections-Ascending}
use xluci.Uci.Sections.Reordered.{names, sections-reordered}
use xluci.Uci.Access.{get, set, value}
use xluci.Uci.Sections.{get_first, set_first}
use xluci.Uci.Sections.First.{first_name, get_first_lem}
use xluci.Uci.Save.{load, unload}
use xluci.Uci.Save.Loaded.{load_lem}
use xluci.Uci.Save.Unloaded.{get_option-unload}
use xluci.Uci.Order.Swapped.{swap_lem, at}
use xluci.Uci.Apply.{apply, resolved}
use xluci.Uci.Apply.Deadline.{apply-first_success, first_success}

-- What a run of the store computes with.
program : Unit {0}
unfolding lookup put remove lookup2 put2 remove2 init is_meta field assign filter_array get_option
    set_option get_section base_option hides changed loaded contains set_base unset_base undelete
    push_deletion is_whole is_some given writable stored taken create_sid truthy choose_sid
    new_section add_as add sections gather base_items created_items insert sort number write_back
    wanted overlay extended entry or_empty swap set_index
program = tt

abbrev lan : Section
lan = record {
  type = "interface";
  name = "lan";
  create = none;
  anonymous = false;
  index = 1;
  options = ("proto", str "static") ∷ ("ifname", str "eth0") ∷ [];
}

abbrev wan : Section
wan = record lan { name = "wan"; index = 2; options = ("proto", str "dhcp") ∷ [] }

abbrev loaded_state : State
loaded_state = record {
  newidx = 0;
  values = ("network", ("lan", lan) ∷ ("wan", wan) ∷ []) ∷ [];
  creates = [];
  changes = [];
  deletes = [];
  reorder = [];
}

get_after_set :
    get_option
      (set_option loaded_state "network" "lan" "proto" (some (str "dhcp")))
      "network"
      "lan"
      "proto"
    ≡ some (str "dhcp")
unfolding program
get_after_set = refl

get_after_empty :
    get_option
      (set_option loaded_state "network" "lan" "proto" (some (str "")))
      "network"
      "lan"
      "proto"
    ≡ none
unfolding program
get_after_empty = refl

get_option-set_option_example :
    get_option
      (set_option loaded_state "network" "lan" "proto" (some (str "dhcp")))
      "network"
      "lan"
      "proto"
    ≡ some (str "dhcp")
unfolding program
get_option-set_option_example =
    get_option-set_option loaded_state "network" "lan" "proto" (some (str "dhcp")) "network" "lan"
      "proto" refl

get_option-remove_example :
    get_option (Access.remove loaded_state "network" "lan") "network" "lan" "proto" ≡ none
unfolding program
get_option-remove_example = get_option-remove loaded_state "network" "lan" "network" "lan" "proto"

abbrev draws : ℕ → String
draws k = "new00f"

add-fresh_example :
    (sid : String) × (add 1 draws loaded_state "network" "route" none
      ≡ some (sid, add_as loaded_state "network" "route" none sid))
    × (taken loaded_state "network" sid ≡ false)
    × ((conf' sid' opt : String)
        → get_option (add_as loaded_state "network" "route" none sid) conf' sid' opt ≡ (
            if (if "network" == conf' then sid == sid' else false)
            then field (new_section loaded_state "route" none sid) opt
            else get_option loaded_state conf' sid' opt))
unfolding program
add-fresh_example = add-fresh 0 1 draws loaded_state "network" "route" none refl (omega arith) refl

sections-Ascending_example :
    (xs : List Item) × Perm xs (gather loaded_state "network" none)
    × Ascending xs
    × (map content (sections loaded_state "network" none).0 ≡ map (λ x. content x.sec) xs)
    × ((k : ℕ) (s : Section)
        → get_elem? (sections loaded_state "network" none).0 k ≡ some s
        → s.index ≡ k)
sections-Ascending_example = sections-Ascending loaded_state "network" none

abbrev route : Section
route = record {
  type = "route";
  name = "new00f";
  create = none;
  anonymous = true;
  index = 1000;
  options = [];
}

abbrev two_sections : State
two_sections = record loaded_state {
  values = ("network", ("lan", lan) ∷ []) ∷ [];
  creates = ("network", ("new00f", route) ∷ []) ∷ [];
}

sections-reordered_example :
    (names (sections two_sections "network" none).0 ≡ "lan" ∷ "new00f" ∷ [])
    × (names (sections (sections two_sections "network" (some "route")).1 "network" none).0
        ≡ "new00f" ∷ "lan" ∷ [])
unfolding program
sections-reordered_example =
    sections-reordered two_sections "network" "lan" "new00f" lan route
      (record { loaded = refl; created = refl; unchanged = refl; undeleted = refl })
      (λ e. ground (arith, e, eq_iff "route" ""))
      (λ e. ground (arith, e, eq_iff "interface" "route")) (omega arith) (omega arith)

swap_lem_example :
    ((swap loaded_state "network" "lan" "wan").1 ≡ true)
    × (lookup "network" (swap loaded_state "network" "lan" "wan").0.reorder ≡ some tt)
    × ((c s : String)
        → get_section (swap loaded_state "network" "lan" "wan").0 c s ≡ (
            if at "network" "lan" c s
            then some (record lan { index = 2 })
            else if at "network" "wan" c s
            then some (record wan { index = 1 })
            else get_section loaded_state c s))
unfolding program
swap_lem_example = swap_lem loaded_state "network" "lan" "wan" lan wan refl refl

apply-first_success_example : apply 0 (some 3) 0 (4 ∷ 4 ∷ 0 ∷ []) ≡ resolved 0
unfolding first_success
apply-first_success_example = apply-first_success 0 (some 3) 0 (4 ∷ 4 ∷ 0 ∷ [])

get_option-unload_example :
    get_option (unload loaded_state ("network" ∷ [])) "network" "lan" "proto" ≡ none
unfolding program
get_option-unload_example = get_option-unload loaded_state ("network" ∷ []) "network" "lan" "proto"

abbrev answer : String → Dict Section
answer conf = ("cfg1", wan) ∷ []

load_lem_example :
    ((conf : String)
      → lookup conf (load answer loaded_state ("network" ∷ "dhcp" ∷ [])).1.values ≡ (
          if is_some (lookup conf loaded_state.values)
          then lookup conf loaded_state.values
          else if contains ("network" ∷ "dhcp" ∷ []) conf
          then some (answer conf)
          else none))
    × ((load answer loaded_state ("network" ∷ "dhcp" ∷ [])).1 ≡ record loaded_state {
      values = (load answer loaded_state ("network" ∷ "dhcp" ∷ [])).1.values;
    })
load_lem_example = load_lem answer loaded_state ("network" ∷ "dhcp" ∷ [])

get_first_lem_example :
    (get_first loaded_state "network" (some "interface") (some "proto")
      ≡ (value (str "static"), (sections loaded_state "network" (some "interface")).1))
    × (set_first loaded_state "network" (some "interface") (some "proto") (some (str "dhcp"))
        ≡ set
            (sections loaded_state "network" (some "interface")).1
            "network"
            (some "lan")
            (some "proto")
            (some (str "dhcp")))
unfolding program get first_name
get_first_lem_example =
    get_first_lem loaded_state "network" (some "interface") (some "proto") (some (str "dhcp"))
