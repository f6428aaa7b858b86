-- ===== src/Cbi/Depends/Toggled.antt =====
-- What `toggle` decides.
use mathlib.Core.Path.{subst}
use text.Mathlib.Text.{◌==◌}
use xluci.Prelude.{
  All-get_elem, All-map, ℕ, zero, suc, String, Bool, true, false, not, Option, some, List, [], ◌∷◌,
  ◌≡◌, refl, ◌↔◌, ◌⊎◌, eq_iff, ◌<◌, length, arith, get_elem?, All, inl, inr, Option-cases,
  Bool-cases,
}
use xluci.Prelude.Dict.{Dict, lookup, lookup-put}
use xluci.Uci.Store.{Value, State}
use xluci.Cbi.Js.{Js}
use xluci.Cbi.Field.{Condition, Field, Page}
use xluci.Cbi.Form.{Form, active}
use xluci.Uci.Access.{is_some}
use xluci.Cbi.Value.{formvalue}
use xluci.Cbi.Depends.Known.{Known, KnownAll, IsForm}
use xluci.Cbi.Depends.{holds, meets, any_met, value_of, set_disabled, modify, toggle}

-- Every condition of the dependency is met by the value of its field.
abbrev pub AllMet : Js → (String → Option (Option Value)) → Dict Condition → Type 0
AllMet js value dep =
    All (λ e. (val : Option Value) × (value e.0 ≡ some val × holds js e.1 val ≡ true)) dep

-- Every name of the dependency is that of a field.
abbrev pub AllKnown : (String → Option (Option Value)) → Dict Condition → Type 0
AllKnown value dep = All (λ e. (val : Option Value) × (value e.0 ≡ some val)) dep

-- Some dependency of the list is met.
abbrev pub SomeMet : Js → (String → Option (Option Value)) → List (Dict Condition) → Type 0
SomeMet js value [] = ⊥
SomeMet js value (d ∷ l) = AllMet js value d ⊎ SomeMet js value l

module _ (js : Js) (value : String → Option (Option Value)) where
  meets_lem :
      (dep : Dict Condition)
      → AllKnown value dep
      → (meets js value dep ≡ some true × AllMet js value dep)
        ⊎ (meets js value dep ≡ some false × ¬ (AllMet js value dep))
  unfolding meets
  meets_lem [] h = inl (refl, tt)
  meets_lem ((k, c) ∷ dep) h =
      let (val, e) = h.0 in
      elim (Bool-cases (holds js c val)) [
        | inl met ↦ elim (meets_lem dep h.1) [
          | inl (m, all) ↦ inl (ground (arith, e, met, m), ((val, (e, met)), all))
          | inr (m, fails) ↦ inr (ground (arith, e, met, m), λ all. fails all.1)
        ]
        | inr fails ↦ inr (
          ground (arith, e, fails),
          λ all.
              let (val', (e', met)) = all.0 in
              let same : val ≡ val' = ground (arith, e, e') in
              absurd (ground (arith, subst (λ v. holds js c v ≡ false) same fails, met)),
        )
      ]

  any_met_lem :
      (l : List (Dict Condition))
      → All (AllKnown value) l
      → (any_met js value l ≡ some true × SomeMet js value l)
        ⊎ (any_met js value l ≡ some false × ¬ (SomeMet js value l))
  unfolding any_met
  any_met_lem [] h = inr (refl, λ e. e)
  any_met_lem (d ∷ l) h = elim (meets_lem d h.0) [
    | inl (m, all) ↦ inl (ground (arith, m), inl all)
    | inr (m, fails) ↦ elim (any_met_lem l h.1) [
      | inl (e, rest) ↦ inl (ground (arith, m, e), inr rest)
      | inr (e, none_met) ↦
          inr (ground (arith, m, e), λ s. elim s [ inl all ↦ fails all | inr rest ↦ none_met rest ])
    ]
  ]

All-lookup {ℓ κ} :
    {V : Type ℓ} (P : V → Type κ) (k : String) (d : Dict V) (v : V)
    → All (λ e. P e.1) d
    → lookup k d ≡ some v
    → P v
unfolding lookup
All-lookup P k [] v h e = absurd (ground (arith, e))
All-lookup P k ((j, w) ∷ d) v h e = elim (Bool-cases (j == k)) [
  | inl same ↦ let is : w ≡ v = ground (arith, same, e) in subst P is h.0
  | inr other ↦ All-lookup P k d v h.1 (ground (arith, other, e))
]

get_elem-in {ℓ} :
    {A : Type ℓ} (xs : List A) (i : ℕ) → i < length xs → (x : A) × (get_elem? xs i ≡ some x)
get_elem-in [] i h = absurd (ground arith)
get_elem-in (x ∷ xs) zero h = (x, refl)
get_elem-in (x ∷ xs) (suc i) h = get_elem-in xs i (omega (arith, h))

get_elem-modify :
    (g : Field → Field) (w : ℕ) (made : List Field) (f : Field)
    → get_elem? made w ≡ some f
    → get_elem? (modify g w made) w ≡ some (g f)
unfolding modify
get_elem-modify g w [] f e = absurd (ground (arith, e))
get_elem-modify g zero (x ∷ made) f e = ground (arith, e)
get_elem-modify g (suc w) (x ∷ made) f e = get_elem-modify g w made f e

pub List-cases {ℓ} :
    {A : Type ℓ} (l : List A) → (l ≡ []) ⊎ ((x : A) × ((xs : List A) × (l ≡ x ∷ xs)))
List-cases [] = inl refl
List-cases (x ∷ xs) = inr (x, (xs, refl))

-- What `toggle` may return for the field `f` at the place `this`.
pub record Decides (js : Js) (value : String → Option (Option Value)) (this : ℕ) (f : Field)
    (sid : String) (r : Option (Bool × Form)) : Type 0 where
  pub result : Bool
  pub form : Form
  pub returns : r ≡ some (result, form)
  pub enabled : (result ≡ true) ↔ (f.dependencies ≡ [] ⊎ SomeMet js value f.dependencies)
  pub shown :
      f.dependencies ≡ []
      ⊎ ((f' : Field) × (get_elem? form.made this ≡ some f' × active sid f' ≡ result))

module _ (js : Js) (page : Page) (conf : String) (st : State) (form : Form) (sid : String) where
  known_value :
      (name : String)
      → IsForm form
      → is_some (lookup name form.fields) ≡ true
      → (val : Option Value) × (value_of js page conf st form sid name ≡ some val)
  unfolding value_of is_some
  known_value name h k = elim (Option-cases (lookup name form.fields)) [
    | inl e ↦ absurd (ground (arith, e, k))
    | inr (w, e) ↦
        let (f, at) =
          get_elem-in form.made w
            (All-lookup (λ i. i < length form.made) name form.fields w h.places e) in
        (formvalue js page conf form.uci_type st f sid, ground (arith, e, at))
  ]

  AllKnown-Known :
      (dep : Dict Condition)
      → IsForm form
      → Known form.fields dep
      → AllKnown (value_of js page conf st form sid) dep
  AllKnown-Known [] h k = tt
  AllKnown-Known ((n, c) ∷ dep) h k = (known_value n h k.0, AllKnown-Known dep h k.1)

  toggle-independent :
      (this : ℕ) (f : Field)
      → f.dependencies ≡ []
      → toggle js page conf st form this f sid ≡ some (true, form)
  unfolding toggle
  toggle-independent this f e = ground (arith, e)

  toggle-decided :
      (this : ℕ) (f : Field) (disabled b : Bool) (d : Dict Condition) (l : List (Dict Condition))
      → f.dependencies ≡ d ∷ l
      → any_met js (value_of js page conf st form sid) f.dependencies ≡ some b
      → lookup sid f.instance ≡ some disabled
      → toggle js page conf st form this f sid
        ≡ some (b, record form { made = modify (set_disabled sid (not b)) this form.made })
  unfolding toggle
  toggle-decided this f disabled b d l e m rendered =
      let decided : any_met js (value_of js page conf st form sid) (d ∷ l) ≡ some b =
        subst (λ x. any_met js (value_of js page conf st form sid) x ≡ some b) e m in
      ground (arith, e, decided, rendered)

  active-set_disabled : (f : Field) (b : Bool) → active sid (set_disabled sid (not b) f) ≡ b
  unfolding active set_disabled
  active-set_disabled f b = ground (arith, eq_iff sid sid, lookup-put sid sid (not b) f.instance)

  -- `toggle` of a field that was rendered returns a result, where the section keeps `IsForm`: true
  -- exactly if the field depends on none or one of its dependencies has all its conditions met; a field
  -- that depends on some is active then, and disabled otherwise.
  pub toggle_iff :
      (this : ℕ) (f : Field) (disabled : Bool)
      → IsForm form
      → get_elem? form.made this ≡ some f
      → lookup sid f.instance ≡ some disabled
      → Decides js
          (value_of js page conf st form sid)
          this
          f
          sid
          (toggle js page conf st form this f sid)
  toggle_iff this f disabled h at rendered = elim (List-cases f.dependencies) [
    | inl e ↦ record {
      result = true;
      form = form;
      returns = toggle-independent this f e;
      enabled = ((λ t. inl e), (λ s. refl));
      shown = inl e;
    }
    | inr (d, (l, e)) ↦
        let known =
          All-map (Known form.fields) (AllKnown (value_of js page conf st form sid)) f.dependencies
            (λ dep k. AllKnown-Known dep h k)
            (All-get_elem (KnownAll form.fields) form.made this f h.known at) in
        elim (any_met_lem js (value_of js page conf st form sid) f.dependencies known) [
          | inl (m, some_met) ↦ record {
            result = true;
            form = record form { made = modify (set_disabled sid (not true)) this form.made };
            returns = toggle-decided this f disabled true d l e m rendered;
            enabled = ((λ t. inr some_met), (λ s. refl));
            shown = inr (
              set_disabled sid false f,
              (
                get_elem-modify (set_disabled sid false) this form.made f at,
                active-set_disabled f true,
              ),
            );
          }
          | inr (m, none_met) ↦ record {
            result = false;
            form = record form { made = modify (set_disabled sid (not false)) this form.made };
            returns = toggle-decided this f disabled false d l e m rendered;
            enabled = (
              (λ t. absurd (ground (arith, t))),
              (λ s. elim s [
                | inl none_there ↦ absurd (ground (arith, e, none_there))
                | inr met ↦ absurd (none_met met)
              ]),
            );
            shown = inr (
              set_disabled sid true f,
              (
                get_elem-modify (set_disabled sid true) this form.made f at,
                active-set_disabled f false,
              ),
            );
          }
        ]
  ]
