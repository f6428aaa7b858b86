-- ===== src/Uci/Create/Fresh.antt =====
-- The names of new sections, and what a new section changes.
use native.Mathlib.Nat.{add-zero, zero-add}
use text.Mathlib.Text.{◌==◌}
use xluci.Prelude.{
  ℕ, zero, suc, ◌+◌, ◌<◌, String, false, Option, none, some, ◌≡◌, arith, if◌then◌else◌, inl, inr,
  Bool-cases,
}
use xluci.Prelude.Dict.{lookup2-put2}
use xluci.Uci.Store.{State, field}
use xluci.Uci.Access.{get_option, base_option, changed, loaded}
use xluci.Uci.Create.{taken, create_sid, truthy, choose_sid, new_section, add_as, add}

pub create_sid-free :
    (fuel : ℕ) (draw : ℕ → String) (k : ℕ) (st : State) (conf sid : String)
    → create_sid fuel draw k st conf ≡ some sid
    → taken st conf sid ≡ false
unfolding create_sid
create_sid-free zero draw k st conf sid h = ground arith
create_sid-free (suc fuel) draw k st conf sid h =
    ground (arith, create_sid-free fuel draw (suc k) st conf sid)

-- Where one of the first `fuel` draws is free, the loop of `createSID` returns a name.
create_sid-total :
    (j fuel : ℕ) (draw : ℕ → String) (k : ℕ) (st : State) (conf : String)
    → j < fuel
    → taken st conf (draw (k + j)) ≡ false
    → (sid : String) × (create_sid fuel draw k st conf ≡ some sid)
unfolding create_sid
create_sid-total j zero draw k st conf h free = absurd (omega arith)
create_sid-total zero (suc fuel) draw k st conf h free = (draw k, ground (arith, add-zero k))
create_sid-total (suc j) (suc fuel) draw k st conf h free =
    elim (Bool-cases (taken st conf (draw k))) [
      | inl used ↦
          let e : suc k + j ≡ k + suc j = omega arith in
          let (sid, found) =
            create_sid-total j fuel draw (suc k) st conf (omega arith) (rw e free) in
          (sid, ground (arith, used, found))
      | inr first ↦ (draw k, ground (arith, first))
    ]

pub get_option-add_as :
    (st : State) (conf type : String) (name : Option String) (sid conf' sid' opt : String)
    → get_option (add_as st conf type name sid) conf' sid' opt ≡ (
        if (if conf == conf' then sid == sid' else false)
        then field (new_section st type name sid) opt
        else get_option st conf' sid' opt)
unfolding get_option add_as base_option changed loaded
get_option-add_as st conf type name sid conf' sid' opt =
    ground (arith, lookup2-put2 conf sid conf' sid' (new_section st type name sid) st.creates)

-- An unnamed `add` returns a name that no created or loaded section of the package had, provided
-- that one of the first `fuel` names drawn is free; every option of every other section reads as
-- before, and the new section has the type and the attributes that `add` gave it and no option.
pub add-fresh :
    (j fuel : ℕ) (draw : ℕ → String) (st : State) (conf type : String) (name : Option String)
    → truthy name ≡ none
    → j < fuel
    → taken st conf (draw j) ≡ false
    → (sid : String) × (add fuel draw st conf type name ≡ some (sid, add_as st conf type name sid))
      × (taken st conf sid ≡ false)
      × ((conf' sid' opt : String)
          → get_option (add_as st conf type name sid) conf' sid' opt ≡ (
              if (if conf == conf' then sid == sid' else false)
              then field (new_section st type name sid) opt
              else get_option st conf' sid' opt))
unfolding add choose_sid
add-fresh j fuel draw st conf type name unnamed h free =
    let (sid, found) = create_sid-total j fuel draw 0 st conf h (rw zero-add free) in
    (
      sid,
      ground (arith, unnamed, found),
      create_sid-free fuel draw 0 st conf sid found,
      get_option-add_as st conf type name sid,
    )
