-- ===== src/Rpc/Reply.antt =====
-- `_call_cb` of rpc.js: what a reply is taken to say.
use text.Mathlib.Text.{◌==◌ as str_eq}
use xluci.Prelude.{ℕ, String, Option, none, some, ◌==◌, if◌then◌else◌}
use xluci.Rpc.Json.{Json, null, num, obj, Items, nil, cons, tag, same_tag, find_field}

-- A reply: `jsonrpc`, and `result` where it is an array.
pub record Message : Type 0 where
  pub jsonrpc : String
  pub result : Option Items

-- What the callback makes of a reply: a value, which may be undefined, or a TypeError.
pub data Taken : Type 0 where
  taken : Option Json → Taken
  type_error : Taken

-- ret[key], for a key that names no property of texts, numbers and arrays
unfoldable pub member : Json → String → Taken
unfolding find_field
member null key = type_error
member (obj fs) key = taken (find_field key fs)
member _ key = taken none

-- msg[i].result[0] == 0, for a status that is a number, and the second element where there is one
unfoldable pub payload : Items → Option Json
payload nil = none
payload (cons (num n) nil) = if n == 0 then some (num n) else none
payload (cons (num n) (cons x xs)) = if n == 0 then some x else none
payload (cons _ xs) = none

-- The message frame is verified.
unfoldable pub unframe : Message → Option Json
unfolding payload
unframe m =
    if str_eq m.jsonrpc "2.0" then elim m.result [ none ↦ none | some r ↦ payload r ] else none

-- typeof(ret) == 'undefined' || type.call(ret) != type.call(dflt)
unfoldable pub or_default : Json → Option Json → Json
unfolding tag same_tag
or_default dflt none = dflt
or_default dflt (some v) = if same_tag (tag v) (tag dflt) then v else dflt

unfoldable pub default_taken : Json → Taken → Taken
unfolding or_default
default_taken dflt type_error = type_error
default_taken dflt (taken ret) = taken (some (or_default dflt ret))

-- `expect`: the first key and its value
unfoldable pub expect_value : Option (String × Json) → Option Json → Taken
unfolding member default_taken
expect_value none ret = taken ret
expect_value (some (key, dflt)) none = default_taken dflt (taken none)
expect_value (some (key, dflt)) (some v) =
    default_taken dflt (if str_eq key "" then taken (some v) else member v key)

unfoldable pub filtered : Option (Option Json → Option Json) → Taken → Taken
filtered none t = t
filtered (some f) type_error = type_error
filtered (some f) (taken ret) = taken (f ret)

-- An entry of `_requests`. The filter stands for the function together with the parameters and the
-- private arguments that it is given.
pub record Request : Type 0 where
  pub expect : Option (String × Json)
  pub filter : Option (Option Json → Option Json)
  pub index : Option ℕ

unfoldable pub interpret : Request → Message → Taken
unfolding unframe expect_value filtered
interpret req m = filtered req.filter (expect_value req.expect (unframe m))
