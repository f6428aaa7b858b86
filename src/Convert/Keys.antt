-- ===== src/Convert/Keys.antt =====
-- The keys of an object after `toObject` and `toArray`.
use text.Mathlib.Text.{◌==◌}
use xluci.Prelude.{String, true, List, [], ◌∷◌, ◌≡◌, refl, arith, if◌then◌else◌}
use xluci.Prelude.Dict.{Dict, put, lookup, lookup-put}
use xluci.Uci.Access.{contains, is_some}
use xluci.Uci.Save.{insert_name, sorted_keys}
use xluci.Convert.{to_object}

contains-insert_name :
    (x : String) (l : List String) (y : String)
    → contains (insert_name x l) y ≡ (if x == y then true else contains l y)
unfolding contains insert_name
contains-insert_name x [] y = ground arith
contains-insert_name x (z ∷ l) y = ground (arith, contains-insert_name x l y)

contains-sorted_keys :
    (d : Dict (Unit {0})) (y : String) → contains (sorted_keys d) y ≡ is_some (lookup y d)
unfolding sorted_keys contains lookup is_some
contains-sorted_keys [] y = refl
contains-sorted_keys ((k, v) ∷ d) y =
    ground (arith, contains-insert_name k (sorted_keys d) y, contains-sorted_keys d y)

pub lookup-to_object :
    (l : List String) (r : Dict (Unit {0})) (y : String)
    → is_some (lookup y (to_object l r)) ≡ (if contains l y then true else is_some (lookup y r))
unfolding to_object contains is_some
lookup-to_object [] r y = refl
lookup-to_object (x ∷ l) r y =
    ground (arith, lookup-to_object l (put x tt r) y, lookup-put x y tt r)

-- The sorted keys of the object of an array, with one more key, are the elements and that key.
pub contains-with_key :
    (l : List String) (n y : String)
    → contains (sorted_keys (put n tt (to_object l []))) y ≡ (if n == y then true else contains l y)
unfolding is_some lookup
contains-with_key l n y = ground (
  arith,
  contains-sorted_keys (put n tt (to_object l [])) y,
  lookup-put n y tt (to_object l []),
  lookup-to_object l [] y,
)

-- Without another key they are the elements.
pub contains-keys :
    (l : List String) (y : String) → contains (sorted_keys (to_object l [])) y ≡ contains l y
unfolding is_some lookup
contains-keys l y = ground (arith, contains-sorted_keys (to_object l []) y, lookup-to_object l [] y)
