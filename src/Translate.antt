-- ===== src/Translate.antt =====
-- The translations of luci2.js, `tr`, `trp`, `trc` and `trcp`. The catalog is the object that was
-- loaded; `plural` is its function from a count to the number of a form, which comes with the catalog.
use Prim.Native.String.{◌++◌}
use xluci.Prelude.{ℕ, String, Option, none, some, List, ◌==◌, if◌then◌else◌, get_elem?}
use xluci.Prelude.Dict.{Dict, lookup}

-- An entry of the catalog: one text, or the texts of the forms.
pub data Entry : Type 0 where
  single : String → Entry
  forms : List String → Entry

abbrev pub Catalog : Type 0
Catalog = Dict Entry

-- L.i18n.plural, as long as no catalog brings another
unfoldable pub default_plural : ℕ → ℕ
default_plural n = if n == 1 then 0 else 1

-- msgstr, or msgstr[i]; `none` for a form that is missing
unfoldable pub form : ℕ → Entry → Option String
form i (single s) = some s
form i (forms l) = get_elem? l i

-- tr(msgid)
unfoldable pub tr : Catalog → String → Option String
unfolding form
tr catalog msgid = elim (lookup msgid catalog) [ none ↦ some msgid | some msgstr ↦ form 0 msgstr ]

-- trp(msgid, msgid_plural, count)
unfoldable pub trp : Catalog → (ℕ → ℕ) → String → String → ℕ → Option String
unfolding form
trp catalog plural msgid msgid_plural count = elim (lookup msgid catalog) [
  | none ↦ some (if count == 1 then msgid else msgid_plural)
  | some msgstr ↦ form (plural count) msgstr
]

-- msgid + '\u0004' + msgctx
unfoldable pub with_context : String → String → String
with_context msgctx msgid = msgid ++ ("\u{4}" ++ msgctx)

-- trc(msgctx, msgid)
unfoldable pub trc : Catalog → String → String → Option String
unfolding form with_context
trc catalog msgctx msgid = elim (lookup (with_context msgctx msgid) catalog) [
  | none ↦ some msgid
  | some msgstr ↦ form 0 msgstr
]

-- trcp(msgctx, msgid, msgid_plural, count)
unfoldable pub trcp : Catalog → (ℕ → ℕ) → String → String → String → ℕ → Option String
unfolding form with_context
trcp catalog plural msgctx msgid msgid_plural count =
    elim (lookup (with_context msgctx msgid) catalog) [
      | none ↦ some (if count == 1 then msgid else msgid_plural)
      | some msgstr ↦ form (plural count) msgstr
    ]
