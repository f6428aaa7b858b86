-- ===== src/Tests/Pages.antt =====
-- The fragment of the page's address at concrete inputs.
use xluci.Prelude.{true, arith, none, some, [], ◌∷◌, ◌≡◌, refl, ap, all_b, if◌then◌else◌}
use xluci.Text.{Text, codes, texts_equal}
use xluci.Text.Split.{split, join, onto_first}
use xluci.Hash.{
  get_hash, set_hash, get_data, fragment, store_tuples, tuple_of, pair_of, value_at, assign, delete,
  changed, sorted, insert_key, text_leb, text_at, tuple, with_sign,
}
use xluci.Hash.Stored.{is_plain, get_hash-set_hash}

program : Unit {0}
unfolding split join onto_first texts_equal get_hash set_hash get_data fragment store_tuples
    tuple_of pair_of value_at assign delete changed sorted insert_key text_leb text_at tuple
    with_sign is_plain
program = tt

sorted_hash :
    set_hash (codes "#view:Status,tab:1,odd") (codes "page") (some (codes "2"))
    ≡ codes "#page:2,tab:1,view:Status"
unfolding program
sorted_hash = refl

emptied : set_hash (codes "#tab:1") (codes "tab") none ≡ codes ""
unfolding program
emptied = refl

-- A browser that encodes what is not plain.
abbrev encode : Text → Text
encode [] = []
encode (c ∷ t) = let rest = encode t in if is_plain c then c ∷ rest else b'%' ∷ c ∷ rest

encode-plain : (t : Text) → all_b is_plain t ≡ true → encode t ≡ t
encode-plain [] h = refl
encode-plain (c ∷ t) h = let rest = encode-plain t (ground (arith, h)) in ground (arith, h, rest)

encode-with_sign : (h : Text) → all_b is_plain h ≡ true → encode (with_sign h) ≡ with_sign h
unfolding with_sign is_plain
encode-with_sign [] h = refl
encode-with_sign (c ∷ t) h = ap (λ x. b'#' ∷ x) (encode-plain (c ∷ t) h)

get_hash-set_hash_example :
    get_hash
      (encode (set_hash (codes "#view:Status,tab:1") (codes "tab") (some (codes "2"))))
      (codes "view")
    ≡ get_hash (codes "#view:Status,tab:1") (codes "view")
unfolding program
get_hash-set_hash_example =
    get_hash-set_hash encode encode-with_sign (codes "#view:Status,tab:1") (codes "tab")
      (some (codes "2")) (codes "view") refl (λ v e. ground (arith, e)) refl
