-- ===== src/Tests/Saved.antt =====
-- A router that keeps its sections in a function, and the state of a client that saves to it.
use text.Mathlib.Text.{◌==◌}
use mathlib.Core.Logic.{◌≢◌}
use xluci.Prelude.{
  String, Bool, true, false, Option, none, some, List, [], ◌∷◌, ◌≡◌, refl, ap, ◌∙◌, Bool-cases,
  Option-cases, inl, inr, arith, eq_iff, if◌then◌else◌,
}
use xluci.Prelude.Dict.{Dict, lookup, lookup2}
use xluci.Uci.Store.{Value, str, list, num, flag, Section, field, is_meta, assign, filter_array}
use xluci.Prelude.Dict as D
use xluci.Prelude.Dict.{put, put2}
use xluci.Uci.Access as A
use xluci.Uci.Access.{
  contains, is_some, get_option, loaded, set_option, given, set_base, is_whole, unset_base,
  undelete, push_deletion, base_option, changed, hides,
}
use xluci.Uci.Create.{add, choose_sid, truthy, add_as, create_sid, new_section, taken}
use xluci.Uci.Order.{Call, call_load, call_order, call_add, call_set, call_delete}
use xluci.Uci.Save.{save_calls}
use xluci.Uci.Save.Sets.{run_all}
use xluci.Uci.Edits.{Edit, edit, to_set, to_remove, to_add, edits}
use xluci.Uci.Edits.Invariant.{IsEdited}
use xluci.Uci.Edits.Saved.{unedited, unedited-IsEdited, edits-IsEdited, edits-save}
use xluci.Uci.Save.Router.{Router, same_section, kept, keep, over}

-- The options of each section, where there is one.
abbrev Table : Type 0
Table = String → String → Option (String → Option Value)

abbrev value_of : Option (String → Option Value) → String → Option Value
value_of none k = none
value_of (some o) k = o k

-- Booleans are stored as texts, numbers as one text, and empty texts not at all.
abbrev other_value : Value → Option Value
other_value (num n) = some (str "1")
other_value (flag b) = some (str (if b then "1" else "0"))
other_value v = none

abbrev stored_value : Value → Option Value
stored_value v = kept other_value v

abbrev put_over : Option Value → Option Value → Option Value
put_over none old = old
put_over (some v) old = some v

abbrev read_table : Table → String → String → String → Option Value
read_table r c s k = keep stored_value (value_of (r c s) k)

abbrev at : Table → String → String → Option (String → Option Value) → Table
at r c s new c' s' = if same_section c s c' s' then new else r c' s'

run_call : Call → Table → Table
run_call (call_load c) r = r
run_call (call_order c l) r = r
run_call (call_add c t none o) r = r
run_call (call_add c t (some n) o) r =
    at r c n (some (λ k. put_over (lookup k o) (value_of (r c n) k)))
run_call (call_set c s o) r = elim (r c s) [
  | none ↦ r
  | some old ↦ at r c s (some (λ k. put_over (lookup k o) (old k)))
]
run_call (call_delete c s none) r = at r c s none
run_call (call_delete c s (some l)) r = elim (r c s) [
  | none ↦ r
  | some old ↦ at r c s (some (λ k. if contains l k then none else old k))
]

stored_value-twice : (v w : Value) → stored_value v ≡ some w → stored_value w ≡ some w
unfolding kept
stored_value-twice (str s) w h = ground (arith, h)
stored_value-twice (list []) w h = absurd (ground (arith, h))
stored_value-twice (list (x ∷ l)) w h = ground (arith, h)
stored_value-twice (num n) w h = ground (arith, h)
stored_value-twice (flag true) w h = ground (arith, h)
stored_value-twice (flag false) w h = ground (arith, h)

stored_value-read :
    (r : Table) (c s k : String) (v : Value)
    → is_meta k ≡ false
    → read_table r c s k ≡ some v
    → stored_value v ≡ some v
stored_value-read r c s k v p h = elim (Option-cases (value_of (r c s) k)) [
  | inl e ↦ absurd (ground (arith, h, e))
  | inr (w, e) ↦ stored_value-twice w v (ground (arith, h, e))
]

abbrev read_of : Option (String → Option Value) → String → Option Value
read_of o k = keep stored_value (value_of o k)

read_if :
    (b : Bool) (x y : Option (String → Option Value)) (k : String)
    → read_of (if b then x else y) k ≡ (if b then read_of x k else read_of y k)
read_if true x y k = refl
read_if false x y k = refl

abbrev has_section : Table → String → String → Bool
has_section r c s = is_some (r c s)

has_section-set :
    (r : Table) (c s c' s' : String) (o : Dict Value)
    → has_section (run_call (call_set c s o) r) c' s' ≡ has_section r c' s'
unfolding run_call is_some
has_section-set r c s c' s' o = ground (arith, eq_iff c c', eq_iff s s')

read_table-set :
    (r : Table) (c s c' s' k : String) (o : Dict Value)
    → is_meta k ≡ false
    → has_section r c s ≡ true
    → read_table (run_call (call_set c s o) r) c' s' k ≡ (
        if same_section c s c' s'
        then over stored_value (lookup k o) (read_table r c' s' k)
        else read_table r c' s' k)
unfolding run_call is_some
read_table-set r c s c' s' k o p h = ground (arith, eq_iff c c', eq_iff s s')

read_table-delete :
    (r : Table) (c s c' s' k : String)
    → is_meta k ≡ false
    → read_table (run_call (call_delete c s none) r) c' s' k
      ≡ (if same_section c s c' s' then none else read_table r c' s' k)
unfolding run_call
read_table-delete r c s c' s' k p = read_if (same_section c s c' s') none (r c' s') k

read_table-delete_options :
    (r : Table) (c s c' s' k : String) (l : List String)
    → is_meta k ≡ false
    → read_table (run_call (call_delete c s (some l)) r) c' s' k ≡ (
        if same_section c s c' s'
        then (if contains l k then none else read_table r c' s' k)
        else read_table r c' s' k)
unfolding run_call
read_table-delete_options r c s c' s' k l p = ground (arith, eq_iff c c', eq_iff s s')

has_section-add :
    (r : Table) (c s c' t : String) (n : Option String) (o : Dict Value)
    → has_section r c s ≡ true
    → has_section (run_call (call_add c' t n o) r) c s ≡ true
unfolding run_call is_some
has_section-add r c s c' t none o h = h
has_section-add r c s c' t (some n) o h = ground (arith, h)

read_table-add :
    (r : Table) (c s c' t k : String) (n : Option String) (o : Dict Value)
    → is_meta k ≡ false
    → has_section r c s ≡ true
    → n ≢ some s
    → read_table (run_call (call_add c' t n o) r) c s k ≡ read_table r c s k
unfolding run_call
read_table-add r c s c' t k none o p h ne = refl
read_table-add r c s c' t k (some n) o p h ne =
    read_if (same_section c' n c s) _ (r c s) k ∙ elim (Bool-cases (same_section c' n c s)) [
      | inl e ↦
          let same : (n == s) ≡ true = ground (arith, e) in
          absurd (ne (ap some ((eq_iff n s).0 same)))
      | inr e ↦ rw e refl
    ]

abbrev table_router : Router
table_router = record {
  R = Table;
  run = run_call;
  has = has_section;
  read = read_table;
  other = other_value;
  kept-read = stored_value-read;
  has-set = has_section-set;
  read-set = read_table-set;
  read-delete = read_table-delete;
  read-delete_options = read_table-delete_options;
  has-add = has_section-add;
  read-add = read_table-add;
}

abbrev lan : Section
lan = record {
  type = "interface";
  name = "lan";
  create = none;
  anonymous = false;
  index = 0;
  options = ("proto", str "static") ∷ ("ifname", str "eth0") ∷ [];
}

abbrev files : Dict (Dict Section)
files = ("network", ("lan", lan) ∷ ("wan", record lan { name = "wan" }) ∷ []) ∷ []

abbrev table : Table
table c s = elim (lookup2 c s files) [ none ↦ none | some x ↦ some (λ k. field x k) ]

table-agrees : (c s : String) → has_section table c s ≡ is_some (lookup2 c s files)
unfolding is_some
table-agrees c s = ground arith

abbrev page : List Edit
page =
    to_set "network" "lan" "proto" (some (str "dhcp"))
    ∷ to_set "network" "lan" "ifname" none
    ∷ to_set "network" "lan" "dns" (some (list []))
    ∷ to_remove "network" "wan"
    ∷ to_add 1 (λ k. "new0a") "network" "interface" (some "guest")
    ∷ []

guest-ne-lan : ◌≢◌ {A = Option String} (some "guest") (some "lan")
guest-ne-lan = cc

-- The option dns, which was edited to an empty list, is not there.
edits-save_example :
    read_table
      (run_all table_router (save_calls (edits (unedited files) page)) table)
      "network"
      "lan"
      "dns"
    ≡ none
unfolding lookup2 lookup is_some loaded field is_meta kept get_option edits edit add choose_sid
    truthy add_as put2 A.remove set_option given set_base is_whole unset_base undelete put
    push_deletion base_option D.remove D.remove2 changed contains hides create_sid new_section taken
    assign filter_array
edits-save_example =
    edits-save table_router files table page "network" "lan" "dns" refl table-agrees refl refl
      (tt, (tt, (tt, (tt, (guest-ne-lan, tt)))))

edits-IsEdited_example : IsEdited files "network" "lan" (edits (unedited files) page)
unfolding lookup2 lookup is_some
edits-IsEdited_example =
    edits-IsEdited page (unedited files) files "network" "lan" refl
      (tt, (tt, (tt, (tt, (guest-ne-lan, tt))))) (unedited-IsEdited files "network" "lan")
