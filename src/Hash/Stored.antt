-- ===== src/Hash/Stored.antt =====
-- `setHash` and `getHash` as a store of texts, through the browser.
use xluci.Prelude.{
  ℕ, Bool, ◌&&◌, not, ◌==◌, leb, all_b, true, Option, none, some, List, [], ◌∷◌, map, ◌≡◌, refl,
  ◌∙◌, arith, All, all_b-append, if◌then◌else◌, ap,
}
use xluci.Text.{Text, texts_equal}
use xluci.Text.Split.{split, join, free_of, split-join}
use xluci.Uci.Access.{is_some}
use xluci.Hash.{
  Data, value_at, tuple, text_at, store_tuples, tuple_of, pair_of, get_data, get_hash, set_hash,
  fragment, with_sign, changed, sorted, assign, delete,
}
use xluci.Hash.Entries.{
  value_at-assign, value_at-delete, has, has-sorted, clean, Clean, Clean-assign, Clean-delete,
  AllClean, AllClean-sorted,
}
use xluci.Hash.Printed.{Clean-get_data, clean_free_comma, clean-text_at, value_at-store_tuples}

fragment-with_sign : (h : Text) → fragment (with_sign h) ≡ h
unfolding fragment with_sign
fragment-with_sign [] = refl
fragment-with_sign (c ∷ h) = refl

tuple-free : (d : Data) (k : Text) → Clean d → clean k ≡ true → free_of b',' (tuple d k) ≡ true
unfolding tuple
tuple-free d k h hk =
    all_b-append _ k (b':' ∷ text_at k d) (clean_free_comma k hk)
      (clean_free_comma (text_at k d) (clean-text_at k d h))

tuples-free :
    (d : Data) (ks : List Text)
    → Clean d
    → AllClean ks
    → All (λ t. free_of b',' t ≡ true) (map (tuple d) ks)
tuples-free d [] h hk = tt
tuples-free d (k ∷ ks) h hk = (tuple-free d k h hk.0, tuples-free d ks h hk.1)

no_tuple : (y : Text) → value_at y (store_tuples (split b',' []) []) ≡ none
unfolding split store_tuples tuple_of pair_of value_at
no_tuple y = refl

value_at-printed :
    (d : Data) (ks : List Text) (y : Text)
    → Clean d
    → AllClean ks
    → value_at y (store_tuples (split b',' (join b',' (map (tuple d) ks))) [])
      ≡ (if has ks y then some (text_at y d) else none)
unfolding value_at join has
value_at-printed d [] y h hk = no_tuple y
value_at-printed d (k ∷ ks) y h hk =
    rw (split-join b',' (tuple d k) (map (tuple d) ks) (tuples-free d (k ∷ ks) h hk))
      (value_at-store_tuples d [] (k ∷ ks) y h hk)

-- What is printed for clean data is read back.
read_back :
    (d : Data) (y : Text)
    → Clean d
    → get_hash (with_sign (join b',' (map (tuple d) (sorted d)))) y ≡ value_at y d
unfolding get_hash get_data is_some text_at
read_back d y h =
    rw (fragment-with_sign (join b',' (map (tuple d) (sorted d))))
      (value_at-printed d (sorted d) y h (AllClean-sorted d h) ∙ ground (arith, has-sorted d y))

get_hash-assigned :
    (hash key : Text) (value : Option Text) (y : Text)
    → clean key ≡ true
    → ((v : Text) → value ≡ some v → clean v ≡ true)
    → get_hash (set_hash hash key value) y ≡ (if texts_equal key y then value else get_hash hash y)
unfolding set_hash get_hash changed
get_hash-assigned hash key none y hk hv =
    let d = get_data hash in
    read_back (delete key d) y (Clean-delete key d (Clean-get_data hash)) ∙ value_at-delete key y d
get_hash-assigned hash key (some v) y hk hv =
    let d = get_data hash in
    read_back (assign key v d) y (Clean-assign key v d hk (hv v refl) (Clean-get_data hash))
    ∙ value_at-assign key y v d

-- A character that a browser does not encode in a fragment: a printable one of ASCII, but no quote, < or
-- > and no backquote.
unfoldable pub is_plain : ℕ → Bool
is_plain c =
    (leb 33 c && leb c 126)
    && ((not (c == 34) && not (c == 60)) && (not (c == 62) && not (c == 96)))

plain-fragment : (h : Text) → all_b is_plain (with_sign h) ≡ true → all_b is_plain h ≡ true
unfolding with_sign
plain-fragment [] e = e
plain-fragment (c ∷ h) e = ground (arith, e)

module _ (browser : Text → Text)
    (browser-plain : (h : Text)
      → all_b is_plain h ≡ true
      → browser (with_sign h) ≡ with_sign h) where
  browser-set_hash :
      (hash key : Text) (value : Option Text)
      → all_b is_plain (set_hash hash key value) ≡ true
      → browser (set_hash hash key value) ≡ set_hash hash key value
  unfolding set_hash
  browser-set_hash hash key value plain =
      let d = changed hash key value in
      browser-plain (join b',' (map (tuple d) (sorted d)))
        (plain-fragment (join b',' (map (tuple d) (sorted d))) plain)

  -- `browser` is what location.hash reads after a text is assigned to it; it gives back a fragment of
  -- characters that are not encoded. After `setHash(key, value)`, with a key and a value without comma
  -- and colon, and an assigned text of such characters, `getHash` returns the value for the key, or
  -- nothing if `setHash` had no value, and for every other key what it returned before.
  pub get_hash-set_hash :
      (hash key : Text) (value : Option Text) (y : Text)
      → clean key ≡ true
      → ((v : Text) → value ≡ some v → clean v ≡ true)
      → all_b is_plain (set_hash hash key value) ≡ true
      → get_hash (browser (set_hash hash key value)) y
        ≡ (if texts_equal key y then value else get_hash hash y)
  get_hash-set_hash hash key value y hk hv plain =
      ap (λ h. get_hash h y) (browser-set_hash hash key value plain)
      ∙ get_hash-assigned hash key value y hk hv
