-- ===== src/Cbi/Tree/Writable.antt =====
-- Which sections can be written, after writes.
use xluci.Prelude.{
  String, false, Option, some, ◌≡◌, refl, arith, eq_iff, inl, inr, Option-cases, Bool-cases,
}
use xluci.Prelude.Dict.{Dict, lookup2, put2, lookup2-put2}
use xluci.Uci.Store.{filter_array, Value, Section, Deletion, opts, State, is_meta, assign}
use xluci.Uci.Access.{
  set_option, set_base, unset_base, given, undelete, push_deletion, is_whole, is_some,
}
use xluci.Uci.Access.Deletions.{entry-cases}
use xluci.Uci.Access.ReadWrite.{writable}

is_whole-undelete :
    (d : Dict (Dict Deletion)) (c s o c' s' : String)
    → is_whole (lookup2 c s d) ≡ false
    → is_whole (lookup2 c' s' (undelete d c s o)) ≡ is_whole (lookup2 c' s' d)
unfolding undelete is_whole
is_whole-undelete d c s o c' s' h = elim (entry-cases (lookup2 c s d)) [
  | inl e ↦ ground (arith, e)
  | inr (inl e) ↦ absurd (ground (arith, h, e))
  | inr (inr (l, e)) ↦
      ground
        (arith, e, eq_iff c c', eq_iff s s', lookup2-put2 c s c' s' (opts (filter_array l o)) d)
]

is_whole-push :
    (d : Dict (Dict Deletion)) (c s o c' s' : String)
    → is_whole (lookup2 c' s' (put2 c s (push_deletion (lookup2 c s d) o) d))
      ≡ is_whole (lookup2 c' s' d)
unfolding push_deletion is_whole
is_whole-push d c s o c' s' =
    ground
      (arith, eq_iff c c', eq_iff s s', lookup2-put2 c s c' s' (push_deletion (lookup2 c s d) o) d)

writable-set_base :
    (st : State) (c s o : String) (v : Value) (c' s' : String)
    → writable (set_base st c s o v) c' s' ≡ writable st c' s'
unfolding writable set_base
writable-set_base st c s o v c' s' = elim (Bool-cases (is_whole (lookup2 c s st.deletes))) [
  | inl e ↦ ground (arith, e)
  | inr e ↦ ground (arith, e, is_whole-undelete st.deletes c s o c' s' e)
]

writable-unset_base :
    (st : State) (c s o : String) (c' s' : String)
    → writable (unset_base st c s o) c' s' ≡ writable st c' s'
unfolding writable unset_base
writable-unset_base st c s o c' s' = ground (arith, is_whole-push st.deletes c s o c' s')

writable-put :
    (st : State) (c s : String) (x y : Section) (c' s' : String)
    → lookup2 c s st.creates ≡ some x
    → writable (record st { creates = put2 c s y st.creates }) c' s' ≡ writable st c' s'
unfolding writable is_some
writable-put st c s x y c' s' e =
    ground (arith, e, eq_iff c c', eq_iff s s', lookup2-put2 c s c' s' y st.creates)

-- No `set` makes a section writable or unwritable.
pub writable-set_option :
    (st : State) (c s o : String) (val : Option Value) (c' s' : String)
    → writable (set_option st c s o val) c' s' ≡ writable st c' s'
unfolding set_option
writable-set_option st c s o val c' s' = elim (Bool-cases (is_meta o)) [
  | inl meta ↦ rw meta refl
  | inr plain ↦ elim (Option-cases (lookup2 c s st.creates)) [
    | inl e ↦ elim (Option-cases (given val)) [
      | inl g ↦ rw (plain, e, g, set_option) (writable-unset_base st c s o c' s')
      | inr (v, g) ↦ rw (plain, e, g, set_option) (writable-set_base st c s o v c' s')
    ]
    | inr (x, e) ↦ rw (plain, e, set_option) (writable-put st c s x (assign x o val) c' s' e)
  ]
]
