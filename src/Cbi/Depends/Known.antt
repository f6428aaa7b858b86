-- ===== src/Cbi/Depends/Known.antt =====
-- The names in the dependencies of fields are those of fields of the section.
use xluci.Prelude.{
  All-append, ℕ, zero, suc, ◌<◌, String, Bool, true, List, [], ◌∷◌, ◌++◌, map, ◌≡◌, refl, ◌∙◌, ap,
  arith, length, if◌then◌else◌, All, inl, inr, Option-cases, Bool-cases,
}
use text.Mathlib.Text.{◌==◌}
use xluci.Prelude.Dict.{Dict, lookup, put, lookup-put}
use xluci.Uci.Access.{is_some}
use xluci.Cbi.Field.{Condition, Field}
use xluci.Cbi.Form.{Form}
use xluci.Cbi.Depends.{known_only, modify, add_dependent, register, extend, add_dependency}

-- The names of the dependency are those of fields.
abbrev pub Known : Dict ℕ → Dict Condition → Type 0
Known fields dep = All (λ e. is_some (lookup e.0 fields) ≡ true) dep

abbrev pub KnownAll : Dict ℕ → Field → Type 0
KnownAll fields f = All (Known fields) f.dependencies

-- Each field of a section is one that was made, and depends on fields of the section.
pub record IsForm (form : Form) : Type 0 where
  pub places : All (λ e. e.1 < length form.made) form.fields
  pub known : All (KnownAll form.fields) form.made

pub All-put {ℓ κ} :
    {V : Type ℓ} (P : String × V → Type κ) (k : String) (v : V) (d : Dict V)
    → P (k, v)
    → All P d
    → All P (put k v d)
unfolding put
All-put P k v [] p h = (p, tt)
All-put P k v ((j, w) ∷ d) p h = elim (Bool-cases (j == k)) [
  | inl e ↦ rw e (p, h.1)
  | inr e ↦ rw e (h.0, All-put P k v d p h.1)
]

pub length-modify :
    (g : Field → Field) (w : ℕ) (made : List Field) → length (modify g w made) ≡ length made
unfolding modify
length-modify g w [] = refl
length-modify g zero (f ∷ made) = refl
length-modify g (suc w) (f ∷ made) = ap suc (length-modify g w made)

pub modify-All :
    (P : Field → Type 0) (g : Field → Field) (w : ℕ) (made : List Field)
    → ((f : Field) → P f → P (g f))
    → All P made
    → All P (modify g w made)
unfolding modify
modify-All P g w [] k h = h
modify-All P g zero (f ∷ made) k h = (k f h.0, h.1)
modify-All P g (suc w) (f ∷ made) k h = (h.0, modify-All P g w made k h.1)

-- A field that is new under its name makes no name unknown.
pub Known-put :
    (name : String) (w : ℕ) (fields : Dict ℕ) (dep : Dict Condition)
    → Known fields dep
    → Known (put name w fields) dep
unfolding is_some
Known-put name w fields [] h = tt
Known-put name w fields ((k, c) ∷ dep) h =
    (ground (arith, h.0, lookup-put name k w fields), Known-put name w fields dep h.1)

pub known_only-Known :
    (fields : Dict ℕ) (dep : Dict Condition) → Known fields (known_only fields dep)
unfolding known_only is_some
known_only-Known fields [] = tt
known_only-Known fields ((k, c) ∷ dep) = elim (Option-cases (lookup k fields)) [
  | inl e ↦ rw (e, known_only) (known_only-Known fields dep)
  | inr (w, e) ↦ rw (e, known_only) (rw e refl, known_only-Known fields dep)
]

extend-Known :
    (fields : Dict ℕ) (e dep : Dict Condition)
    → Known fields e
    → Known fields dep
    → Known fields (extend e dep)
unfolding extend
extend-Known fields e [] h k = h
extend-Known fields e ((j, c) ∷ dep) h k =
    extend-Known fields (put j c e) dep
      (All-put (λ x. is_some (lookup x.0 fields) ≡ true) j c e k.0 h) k.1

All-extend :
    (fields : Dict ℕ) (l : List (Dict Condition)) (dep : Dict Condition)
    → All (Known fields) l
    → Known fields dep
    → All (Known fields) (map (λ e. extend e dep) l)
All-extend fields [] dep h k = tt
All-extend fields (e ∷ l) dep h k = (extend-Known fields e dep h.0 k, All-extend fields l dep h.1 k)

pub add_dependency-KnownAll :
    (fields : Dict ℕ) (dep : Dict Condition) (add : Bool) (f : Field)
    → Known fields dep
    → KnownAll fields f
    → KnownAll fields (add_dependency dep add f)
unfolding add_dependency
add_dependency-KnownAll fields dep add f k h =
    elim f.dependencies
        as (λ l.
          All (Known fields) l
          → All (Known fields) (elim l [
            | [] ↦ dep ∷ []
            | d ∷ l ↦ if add then map (λ e. extend e dep) (d ∷ l) else (d ∷ l) ++ dep ∷ []
          ])) [
            | [] ↦ λ h. (k, tt)
            | d ∷ l ↦ λ h. elim (Bool-cases add) [
              | inl e ↦ rw e (All-extend fields (d ∷ l) dep h k)
              | inr e ↦ rw e (All-append (Known fields) (d ∷ l) (dep ∷ []) h (k, tt))
            ]
          ]
      h

pub register-All :
    (P : Field → Type 0) (fields : Dict ℕ) (name : String) (this : ℕ) (dep : Dict Condition)
    (made : List Field)
    → ((f : Field) → P f → P (add_dependent name this f))
    → All P made
    → All P (register fields name this dep made)
unfolding register
register-All P fields name this [] made k h = h
register-All P fields name this ((j, c) ∷ dep) made k h = elim (Option-cases (lookup j fields)) [
  | inl e ↦ rw (e, register) (register-All P fields name this dep made k h)
  | inr (w, e) ↦
      rw (e, register)
        (register-All P fields name this dep (modify (add_dependent name this) w made) k
          (modify-All P (add_dependent name this) w made k h))
]

pub length-register :
    (fields : Dict ℕ) (name : String) (this : ℕ) (dep : Dict Condition) (made : List Field)
    → length (register fields name this dep made) ≡ length made
unfolding register
length-register fields name this [] made = refl
length-register fields name this ((j, c) ∷ dep) made = elim (Option-cases (lookup j fields)) [
  | inl e ↦ rw (e, register) (length-register fields name this dep made)
  | inr (w, e) ↦
      rw (e, register)
        (length-register fields name this dep (modify (add_dependent name this) w made)
          ∙ length-modify (add_dependent name this) w made)
]
