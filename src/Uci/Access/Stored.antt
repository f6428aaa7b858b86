-- ===== src/Uci/Access/Stored.antt =====
-- Reading back what was just written.
use xluci.Prelude.{
  List, String, true, false, Option, some, ◌≡◌, arith, eq_iff, inl, inr, Option-cases,
}
use xluci.Prelude.Dict.{lookup2, lookup2-put2}
use xluci.Uci.Store.{Value, list, State, is_meta, assign}
use xluci.Uci.Access.{get_option, set_option, is_some, given}
use xluci.Uci.Access.ReadWrite.{writable, stored, get_option-set_option, set_option-created}

-- In a writable section an option reads back as it is stored.
pub get_option-set_self :
    (st : State) (conf sid opt : String) (val : Option Value)
    → is_meta opt ≡ false
    → writable st conf sid ≡ true
    → get_option (set_option st conf sid opt val) conf sid opt ≡ stored st conf sid val
get_option-set_self st conf sid opt val plain w = ground (
  arith,
  w,
  get_option-set_option st conf sid opt val conf sid opt plain,
  eq_iff conf conf,
  eq_iff sid sid,
  eq_iff opt opt,
)

-- A list is stored as it is.
pub stored-list :
    (st : State) (conf sid : String) (l : List String)
    → stored st conf sid (some (list l)) ≡ some (list l)
unfolding stored given
stored-list st conf sid l = ground arith

pub stored-created :
    (st : State) (conf sid : String) (val : Option Value)
    → is_some (lookup2 conf sid st.creates) ≡ true
    → stored st conf sid val ≡ val
unfolding stored is_some
stored-created st conf sid val h = ground (arith, h)

-- A section that was created here is writable, and stays created when an option is written.
pub created-writable :
    (st : State) (conf sid : String)
    → is_some (lookup2 conf sid st.creates) ≡ true
    → writable st conf sid ≡ true
unfolding writable
created-writable st conf sid h = ground (arith, h)

pub created-set_option :
    (st : State) (conf sid opt : String) (val : Option Value)
    → is_meta opt ≡ false
    → is_some (lookup2 conf sid st.creates) ≡ true
    → is_some (lookup2 conf sid (set_option st conf sid opt val).creates) ≡ true
unfolding is_some
created-set_option st conf sid opt val plain h = elim (Option-cases (lookup2 conf sid st.creates)) [
  | inl e ↦ absurd (ground (arith, h, e))
  | inr (s, e) ↦ rw (set_option-created st conf sid opt val s plain e) (
      ground (
        arith,
        eq_iff conf conf,
        eq_iff sid sid,
        lookup2-put2 conf sid conf sid (assign s opt val) st.creates,
      ))
]
