-- ===== src/Cbi/Value.antt =====
-- What a field reads and writes: the methods of `AbstractValue` of cbi.js, and what
-- `CheckboxValue`, `MultiValue`, `ComboBox`, `DynamicList`, `DummyValue` and `NetworkList` change.
pub mod Saved
pub mod Checked
use Prim.Native.String.{◌++◌ as append}
use text.Mathlib.Text.{◌==◌ as str_eq}
use xluci.Prelude.{
  String, Bool, true, false, ◌&&◌, not, Option, none, some, List, [], ◌∷◌, ◌==◌, length,
  if◌then◌else◌,
}
use xluci.Prelude.Dict.{Dict, lookup, put}
use xluci.Uci.Store.{Value, str, list, num, flag, State}
use xluci.Uci.Access.{set_option}
use xluci.Convert.{nonempty}
use xluci.Cbi.Js.{Js, join, to_string, loosely_equal, is_true, split_spaces, first, words}
use xluci.Cbi.Run.{Run, returns, throws}
use xluci.Cbi.Field.{
  checkbox_value, multi_value, dynamic_list, dummy_value, network_list, Field, Page, ucipath,
  base_ucivalue, field_id,
}

-- NetworkList.ucivalue(sid), of the value of AbstractValue
unfoldable pub network_value : Bool → Option Value → Option Value
unfolding words first is_true
network_value false (some (list l)) = first l
network_value false (some (str s)) = first (words s)
network_value false v = v
network_value true (some (str s)) = some (list (words s))
network_value true v = if is_true v then v else some (list [])

-- CheckboxValue.ucivalue(sid), of the value of AbstractValue
unfoldable pub checkbox_value_of : Js → Field → Option Value → Option Value
unfolding loosely_equal
checkbox_value_of js f (some (flag b)) = some (flag b)
checkbox_value_of js f v =
    some
      (flag (loosely_equal js v (elim f.options.enabled [ none ↦ none | some s ↦ some (str s) ])))

-- DynamicList.ucivalue(sid), of the value of AbstractValue
unfoldable pub list_value_of : Js → Option Value → Option Value
unfolding split_spaces to_string
list_value_of js none = some (list [])
list_value_of js (some (list l)) = some (list l)
list_value_of js (some w) = some (list (split_spaces (to_string js w)))

-- ucivalue(sid) of the class of the field
unfoldable pub ucivalue : Js → String → State → Field → String → Option Value
unfolding base_ucivalue checkbox_value_of list_value_of network_value
ucivalue js conf st f sid =
    let v = base_ucivalue conf st f sid in
    elim f.widget [
      | checkbox_value ↦ checkbox_value_of js f v
      | dynamic_list ↦ list_value_of js v
      | network_list ↦ network_value f.options.multiple v
      | _ ↦ v
    ]

-- (v === '') ? undefined : v
unfoldable pub nothing_if_empty : Option Value → Option Value
nothing_if_empty (some (str s)) = if str_eq s "" then none else some (str s)
nothing_if_empty v = v

unfoldable pub first_nonempty : List String → Option Value
first_nonempty [] = none
first_nonempty (x ∷ l) = if str_eq x "" then first_nonempty l else some (str x)

-- CheckboxValue.formvalue(sid)
unfoldable pub checkbox_formvalue : Field → Option Bool → Option Value
unfolding is_true
checkbox_formvalue f none = some (flag (is_true f.options.initial))
checkbox_formvalue f (some b) = some (flag b)

-- DynamicList.formvalue(sid)
unfoldable pub list_formvalue : List String → Option Value
list_formvalue l = some (list (nonempty l))

-- NetworkList.formvalue(sid)
unfoldable pub network_formvalue : Bool → List String → Option Value
unfolding first_nonempty
network_formvalue false inputs = first_nonempty inputs
network_formvalue true [] = none
network_formvalue true (x ∷ l) = some (list (x ∷ l))

-- formvalue(sid) of the class of the field
unfoldable pub formvalue : Js → Page → String → String → State → Field → String → Option Value
unfolding field_id nothing_if_empty checkbox_formvalue list_formvalue network_formvalue ucivalue
formvalue js page conf type st f sid =
    let id = field_id conf type f sid in
    elim f.widget [
      | checkbox_value ↦ checkbox_formvalue f (page.checked id)
      | multi_value ↦ some (list (page.ticked id))
      | dynamic_list ↦ list_formvalue (page.inputs id)
      | dummy_value ↦ ucivalue js conf st f sid
      | network_list ↦ network_formvalue f.options.multiple (page.ticked id)
      | _ ↦ nothing_if_empty (page.val id)
    ]

-- typeof(v) == 'undefined' || ($.isArray(v) && !v.length)
unfoldable pub is_blank_value : Option Value → Bool
is_blank_value none = true
is_blank_value (some (list [])) = true
is_blank_value (some v) = false

-- The caption of the choice, if the text is one.
unfoldable pub caption_of : List (String × String) → String → String
caption_of [] v = v
caption_of ((k, c) ∷ choices) v = if str_eq v k then c else caption_of choices v

-- textvalue(sid) of AbstractValue, behind the two values and the placeholder
unfoldable pub shown :
    (String → String) → Option (List (String × String)) → Option Value → Option Value
unfolding caption_of join
shown tr choices none = none
shown tr (some choices) (some (str s)) =
    if str_eq s "" then none else some (str (caption_of choices s))
shown tr none (some (str s)) = if str_eq s "" then none else some (str s)
shown tr choices (some (flag b)) = some (str (if b then tr "yes" else tr "no"))
shown tr choices (some (list l)) = some (str (join ", " l))
shown tr choices (some (num n)) = some (num n)

-- MultiValue.textvalue(sid): the captions of the ticked values
unfoldable pub choice_captions : Dict String → List String → List String
choice_captions c [] = []
choice_captions c (v ∷ l) =
    let rest = choice_captions c l in
    elim (lookup v c) [ none ↦ v ∷ rest | some t ↦ (if str_eq t "" then v else t) ∷ rest ]

-- c[choices[i][0]] = choices[i][1]
unfoldable pub store_choices : List (String × String) → Dict String → Dict String
store_choices [] c = c
store_choices ((k, t) ∷ l) c = store_choices l (put k t c)

unfoldable pub choice_table : Option (List (String × String)) → Dict String
unfolding store_choices
choice_table none = []
choice_table (some l) = store_choices l []

unfoldable pub textvalue :
    Js → (String → String) → Page → String → String → State → Field → String → Option Value
unfolding formvalue ucivalue is_blank_value shown choice_captions choice_table join
textvalue js tr page conf type st f sid =
    let form = formvalue js page conf type st f sid in
    let v = if is_blank_value form then ucivalue js conf st f sid else form in
    let w = if is_blank_value v then some (str f.options.placeholder) else v in
    elim f.widget [
      | multi_value ↦ some (
          str (
            join ", "
              (choice_captions (choice_table f.choices) (page.ticked (field_id conf type f sid)))))
      | _ ↦ shown tr f.choices w
    ]

-- a[i] != b[i] for some i
unfoldable pub texts_differ : List String → List String → Bool
texts_differ (x ∷ a) (y ∷ b) = if str_eq x y then texts_differ a b else true
texts_differ _ _ = false

-- The comparison of `changed`, where `a` is the stored value and `b` that of the form: the types, then
-- the arrays with their lengths, then the values.
unfoldable pub values_differ : Option Value → Option Value → Bool
unfolding texts_differ
values_differ none none = false
values_differ (some (str s)) (some (str t)) = not (str_eq s t)
values_differ (some (num m)) (some (num n)) = not (m == n)
values_differ (some (flag b)) (some (flag c)) = if b then not c else c
values_differ (some (list a)) (some (list b)) =
    if length a == length b then texts_differ a b else true
values_differ _ _ = true

-- What `save` writes where the value changed.
unfoldable pub saved_value : Js → Field → Option Value → Option Value
unfolding loosely_equal is_true
saved_value js f val = elim f.widget [
  | checkbox_value ↦
      if f.options.optional && loosely_equal js val f.options.initial
      then none
      else (elim (if is_true val then f.options.enabled else f.options.disabled) [
        | none ↦ none
        | some s ↦ some (str s)
      ])
  | _ ↦ val
]

-- this.instance[sid].disabled; `none` where it throws, since the field was not rendered for the section
unfoldable pub is_disabled : Field → String → Option Bool
is_disabled f sid = lookup sid f.instance

-- save(sid) of AbstractValue and CheckboxValue
unfoldable pub save_field : Js → Page → String → String → Field → String → State → Run
unfolding ucipath ucivalue formvalue values_differ saved_value is_disabled
save_field js page conf type f sid st =
    let uci = ucipath conf f sid in
    let val = formvalue js page conf type st f sid in
    elim (is_disabled f sid) [
      | none ↦ throws st
      | some true ↦
          returns
            (if f.options.keep then st else set_option st uci.config uci.section uci.option none)
      | some false ↦ returns (
          if values_differ (ucivalue js conf st f sid) val
          then set_option st uci.config uci.section uci.option (saved_value js f val)
          else st)
    ]

-- fields[f].save(sid), of the class or of the view
unfoldable pub call_save : Js → Page → String → String → Field → String → State → Run
unfolding save_field
call_save js page conf type f sid st = elim f.own_save [
  | none ↦ save_field js page conf type f sid st
  | some save ↦ save sid st
]

-- $('#' + id).val() || ''
unfoldable pub value_or_empty : Option Value → Value
unfolding is_true
value_or_empty none = str ""
value_or_empty (some v) = if is_true (some v) then v else str ""

-- WlanFreqValue.save(sid), where `id` is this.id(sid)
unfoldable pub wlan_freq_save : Page → (String → String) → String → State → Run
unfolding value_or_empty
wlan_freq_save page id sid st =
    let value : String → Option Value =
      λ kind. some (value_or_empty (page.val (append (id sid) kind))) in
    let st1 = set_option st "wireless" sid "hwmode" (value "band") in
    let st2 = set_option st1 "wireless" sid "channel" (value "channel") in
    returns (set_option st2 "wireless" sid "htmode" (value "width"))

-- FirewallZoneList.save(sid)
unfoldable pub zone_list_save : String → State → Run
zone_list_save sid st = returns st
