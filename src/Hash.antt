-- ===== src/Hash.antt =====
-- `getHash` and `setHash` of luci2.js: pairs of keys and values in the fragment of the page's address.
-- The fragment that is read, location.hash, is an argument here, and the one that is assigned a result;
-- the browser, which may encode what is assigned, is between the two.
pub mod Entries
pub mod Printed
pub mod Stored
use xluci.Prelude.{
  ℕ, Bool, true, false, ◌&&◌, not, Option, none, some, List, [], ◌∷◌, ◌++◌, map, leb, ltb, ◌==◌,
  if◌then◌else◌,
}
use xluci.Text.{Text, texts_equal}
use xluci.Text.Split.{split, join}

-- The object `data`, with its keys in the order of their first assignment.
abbrev pub Data : Type 0
Data = List (Text × Text)

unfoldable pub value_at : Text → Data → Option Text
value_at k [] = none
value_at k ((j, v) ∷ d) = if texts_equal j k then some v else value_at k d

unfoldable pub assign : Text → Text → Data → Data
assign k v [] = (k, v) ∷ []
assign k v ((j, w) ∷ d) = if texts_equal j k then (k, v) ∷ d else (j, w) ∷ assign k v d

unfoldable pub delete : Text → Data → Data
delete k [] = []
delete k ((j, v) ∷ d) = let rest = delete k d in if texts_equal j k then rest else (j, v) ∷ rest

-- The two parts of a tuple; `none` where there are not two.
unfoldable pub pair_of : List Text → Option (Text × Text)
pair_of (k ∷ v ∷ []) = some (k, v)
pair_of _ = none

-- tuple.split(/:/)
unfoldable pub tuple_of : Text → Option (Text × Text)
unfolding split pair_of
tuple_of t = pair_of (split b':' t)

unfoldable pub store_tuples : List Text → Data → Data
unfolding tuple_of assign
store_tuples [] d = d
store_tuples (t ∷ tuples) d = elim (tuple_of t) [
  | none ↦ store_tuples tuples d
  | some (k, v) ↦ store_tuples tuples (assign k v d)
]

-- (location.hash || '#').substring(1)
unfoldable pub fragment : Text → Text
fragment [] = []
fragment (c ∷ hash) = hash

-- getHash(undefined)
unfoldable pub get_data : Text → Data
unfolding fragment store_tuples
get_data hash = store_tuples (split b',' (fragment hash)) []

-- getHash(key)
unfoldable pub get_hash : Text → Text → Option Text
unfolding get_data value_at
get_hash hash key = value_at key (get_data hash)

-- The order of texts by their characters.
unfoldable pub text_leb : Text → Text → Bool
text_leb [] t = true
text_leb (c ∷ s) [] = false
text_leb (c ∷ s) (d ∷ t) = let rest = text_leb s t in if c == d then rest else ltb c d

unfoldable pub insert_key : Text → List Text → List Text
unfolding text_leb
insert_key k [] = k ∷ []
insert_key k (j ∷ keys) = if text_leb k j then k ∷ j ∷ keys else j ∷ insert_key k keys

-- The keys, sorted.
unfoldable pub sorted : Data → List Text
unfolding insert_key
sorted [] = []
sorted ((k, v) ∷ d) = insert_key k (sorted d)

-- data[k], for a key that is there
unfoldable pub text_at : Text → Data → Text
unfolding value_at
text_at k d = elim (value_at k d) [ none ↦ [] | some v ↦ v ]

-- k + ':' + data[k]
unfoldable pub tuple : Data → Text → Text
unfolding text_at
tuple d k = k ++ (b':' ∷ text_at k d)

unfoldable pub changed : Text → Text → Option Text → Data
unfolding get_data assign delete
changed hash key none = delete key (get_data hash)
changed hash key (some v) = assign key v (get_data hash)

-- '#' + h, or nothing
unfoldable pub with_sign : Text → Text
with_sign [] = []
with_sign (c ∷ h) = b'#' ∷ c ∷ h

-- setHash(key, value), where `hash` is location.hash: the text that is assigned to it
unfoldable pub set_hash : Text → Text → Option Text → Text
unfolding sorted tuple with_sign changed
set_hash hash key value =
    let d = changed hash key value in with_sign (join b',' (map (tuple d) (sorted d)))
