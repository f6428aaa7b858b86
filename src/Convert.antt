-- ===== src/Convert.antt =====
-- `toArray` and `toObject` of luci2.js, on the values of options.
pub mod Keys
use Prim.Native.Char.{Char, code}
use xluci.Prelude.{
  ℕ, String, Bool, true, false, ◌||◌, ◌&&◌, Option, none, some, List, [], ◌∷◌, ◌==◌, leb,
  if◌then◌else◌,
}
use xluci.Prelude.Dict.{Dict, put}
use xluci.Uci.Store.{Value, str, list, num, flag}

-- \s
unfoldable pub is_space : ℕ → Bool
is_space c =
    (leb 9 c && leb c 13)
    || (c == 32
        || (c == 160
            || (c == 0x1680
                || ((leb 0x2000 c && leb c 0x200a)
                    || (c == 0x2028
                        || (c == 0x2029
                            || (c == 0x202f || (c == 0x205f || (c == 0x3000 || c == 0xfeff)))))))))

unfoldable pub onto_first : Char → List String → List String
onto_first c [] = (String.◌∷◌ c String.[]) ∷ []
onto_first c (part ∷ parts) = (String.◌∷◌ c part) ∷ parts

-- The parts of a text between white space, empty ones too.
unfoldable pub split_space : String → List String
unfolding is_space onto_first
split_space String.[] = String.[] ∷ []
split_space (String.◌∷◌ c s) =
    let parts = split_space s in if is_space (code c) then String.[] ∷ parts else onto_first c parts

unfoldable pub nonempty : List String → List String
nonempty [] = []
nonempty (String.[] ∷ l) = nonempty l
nonempty (String.◌∷◌ c s ∷ l) = String.◌∷◌ c s ∷ nonempty l

-- L.toArray(x): the words of a text, the elements of an array. A number or a boolean, which no option
-- of a package holds, is left out.
unfoldable pub to_array : Option Value → List String
unfolding split_space nonempty
to_array none = []
to_array (some (str s)) = nonempty (split_space s)
to_array (some (list l)) = l
to_array (some (num n)) = []
to_array (some (flag b)) = []

-- L.toObject(x), for an array: an object with its elements as keys
unfoldable pub to_object : List String → Dict (Unit {0}) → Dict (Unit {0})
to_object [] r = r
to_object (x ∷ l) r = to_object l (put x tt r)
