-- ===== src/Rpc/Json.antt =====
-- JSON values as rpc.js reads them.
use text.Mathlib.Text.{◌==◌}
use xluci.Prelude.{ℕ, String, Bool, true, false, Option, none, some, if◌then◌else◌}

mutual
  pub data Json : Type 0 where
    null : Json
    bool : Bool → Json
    num : ℕ → Json
    str : String → Json
    arr : Items → Json
    obj : Fields → Json

  pub data Items : Type 0 where
    nil : Items
    cons : Json → Items → Items

  pub data Fields : Type 0 where
    end : Fields
    field : String → Json → Fields → Fields

-- Object.prototype.toString.call(x)
pub data Tag : Type 0 where
  null_tag bool_tag num_tag str_tag arr_tag obj_tag : Tag

unfoldable pub tag : Json → Tag
tag null = null_tag
tag (bool b) = bool_tag
tag (num n) = num_tag
tag (str s) = str_tag
tag (arr xs) = arr_tag
tag (obj fs) = obj_tag

unfoldable pub same_tag : Tag → Tag → Bool
same_tag null_tag null_tag = true
same_tag bool_tag bool_tag = true
same_tag num_tag num_tag = true
same_tag str_tag str_tag = true
same_tag arr_tag arr_tag = true
same_tag obj_tag obj_tag = true
same_tag _ _ = false

unfoldable pub find_field : String → Fields → Option Json
find_field key end = none
find_field key (field k v fs) = let rest = find_field key fs in if k == key then some v else rest
