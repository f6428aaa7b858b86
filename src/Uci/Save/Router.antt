-- ===== src/Uci/Save/Router.antt =====
-- The router's configuration, as the remote calls of uci.js document it: what it reads after a call
-- that `save` makes. It is not in this repository.
use text.Mathlib.Text.{◌==◌}
use xluci.Prelude.{
  String, Bool, true, false, Option, none, some, List, [], ◌∷◌, ◌≡◌, ◌≢◌, all_b, not, if◌then◌else◌,
}
use xluci.Prelude.Dict.{Dict, lookup}
use xluci.Uci.Store.{Value, str, list, is_meta}
use xluci.Uci.Access.{contains}
use xluci.Uci.Order.{Call, call_add, call_set, call_delete}

abbrev pub same_section : String → String → String → String → Bool
same_section c s c' s' = if c == c' then s == s' else false

-- What the router stores of a value: a text or a list that is not empty and has no empty text as it is,
-- and of an empty list nothing. Numbers, booleans and empty texts are stored in a way of the router's.
unfoldable pub kept : (Value → Option Value) → Value → Option Value
kept other (str s) = if s == "" then other (str s) else some (str s)
kept other (list l) = elim l [
  | [] ↦ none
  | x ∷ rest ↦
      if all_b (λ y. not (y == "")) (x ∷ rest)
      then some (list (x ∷ rest))
      else other (list (x ∷ rest))
]
kept other v = other v

-- What is stored of a value, if there is one.
abbrev pub keep : (Value → Option Value) → Option Value → Option Value
keep store none = none
keep store (some v) = store v

-- What is there after an assignment of a value, if there is one: what is stored of it.
abbrev pub over : (Value → Option Value) → Option Value → Option Value → Option Value
over store none old = old
over store (some v) old = store v

-- The laws on what is read are of the options that are no attributes of the section.
pub record Router : Type 1 where
  pub R : Type 0
  pub run : Call → R → R
  -- whether there is a section of this name
  pub has : R → String → String → Bool
  pub read : R → String → String → String → Option Value
  -- What is stored of the values that `kept` leaves open.
  pub other : Value → Option Value
  pub kept-read :
      (r : R) (c s k : String) (v : Value)
      → is_meta k ≡ false
      → read r c s k ≡ some v
      → kept other v ≡ some v
  pub has-set :
      (r : R) (c s c' s' : String) (o : Dict Value)
      → has (run (call_set c s o) r) c' s' ≡ has r c' s'
  pub read-set :
      (r : R) (c s c' s' k : String) (o : Dict Value)
      → is_meta k ≡ false
      → has r c s ≡ true
      → read (run (call_set c s o) r) c' s' k ≡ (
          if same_section c s c' s'
          then over (kept other) (lookup k o) (read r c' s' k)
          else read r c' s' k)
  pub read-delete :
      (r : R) (c s c' s' k : String)
      → is_meta k ≡ false
      → read (run (call_delete c s none) r) c' s' k
        ≡ (if same_section c s c' s' then none else read r c' s' k)
  pub read-delete_options :
      (r : R) (c s c' s' k : String) (l : List String)
      → is_meta k ≡ false
      → read (run (call_delete c s (some l)) r) c' s' k ≡ (
          if same_section c s c' s'
          then (if contains l k then none else read r c' s' k)
          else read r c' s' k)
  -- An addition makes a section of the given name, or of a new one.
  pub has-add :
      (r : R) (c s c' t : String) (n : Option String) (o : Dict Value)
      → has r c s ≡ true
      → has (run (call_add c' t n o) r) c s ≡ true
  pub read-add :
      (r : R) (c s c' t k : String) (n : Option String) (o : Dict Value)
      → is_meta k ≡ false
      → has r c s ≡ true
      → n ≢ some s
      → read (run (call_add c' t n o) r) c s k ≡ read r c s k
