-- ===== src/Uci/Save/Sets.antt =====
-- The router after the calls that `save` makes for changed options.
use text.Mathlib.Text.{◌==◌}
use xluci.Prelude.{
  String, true, false, Option, none, some, List, [], ◌∷◌, ◌++◌, ◌≡◌, refl, ◌∙◌, arith, eq_iff,
  if◌then◌else◌, All, ap,
}
use xluci.Prelude.Dict.{Dict, lookup, lookup2}
use xluci.Uci.Store.{Value, is_meta}
use xluci.Uci.Order.{Call, call_set}
use xluci.Uci.Save.{set_calls, each_package}
use xluci.Uci.Save.Router.{Router, kept, over}

-- The keys of a map are distinct, as those of a JavaScript object are.
abbrev pub Distinct {ℓ} : {V : Type ℓ} → Dict V → Type ℓ
Distinct [] = Unit
Distinct ((k, v) ∷ d) = (lookup k d ≡ none) × Distinct d

abbrev pub Distinct2 {ℓ} : {V : Type ℓ} → Dict (Dict V) → Type ℓ
Distinct2 d = Distinct d × All (λ e. Distinct e.1) d

module _ (router : Router) where
  open router use {
    R, run, has, read, other, has-set, read-set, read-delete, read-delete_options, has-add,
    read-add,
  }

  -- Calls one behind the other.
  unfoldable pub run_all : List Call → R → R
  run_all [] r = r
  run_all (call ∷ calls) r = run_all calls (run call r)

  pub run_all-append :
      (xs ys : List Call) (r : R) → run_all (xs ++ ys) r ≡ run_all ys (run_all xs r)
  unfolding run_all
  run_all-append [] ys r = refl
  run_all-append (x ∷ xs) ys r = run_all-append xs ys (run x r)

  -- The changes of one package, then those of all.
  abbrev pub AllHas : R → String → Dict (Dict Value) → Type 0
  AllHas r conf = All (λ e. has r conf e.0 ≡ true)

  AllHas-set :
      (m : Dict (Dict Value)) (r : R) (conf c s : String) (o : Dict Value)
      → AllHas r conf m
      → AllHas (run (call_set c s o) r) conf m
  AllHas-set [] r conf c s o h = tt
  AllHas-set ((sid, _) ∷ m) r conf c s o h =
      (has-set r c s conf sid o ∙ h.0, AllHas-set m r conf c s o h.1)

  has-set_calls :
      (conf : String) (m : Dict (Dict Value)) (r : R) (c s : String)
      → has (run_all (set_calls conf m) r) c s ≡ has r c s
  unfolding run_all set_calls
  has-set_calls conf [] r c s = refl
  has-set_calls conf ((sid, o) ∷ m) r c s =
      has-set_calls conf m (run (call_set conf sid o) r) c s ∙ has-set r conf sid c s o

  abbrev change_in : Dict (Dict Value) → String → String → Option Value
  change_in m s k = elim (lookup s m) [ none ↦ none | some o ↦ lookup k o ]

  read-set_calls :
      (conf : String) (m : Dict (Dict Value)) (r : R) (c s k : String)
      → is_meta k ≡ false
      → Distinct m
      → AllHas r conf m
      → read (run_all (set_calls conf m) r) c s k
        ≡ (if conf == c then over (kept other) (change_in m s k) (read r c s k) else read r c s k)
  unfolding run_all set_calls lookup
  read-set_calls conf [] r c s k p d h = ground arith
  read-set_calls conf ((sid, o) ∷ m) r c s k p d h = ground (
    arith,
    read-set_calls conf m (run (call_set conf sid o) r) c s k p d.1
        (AllHas-set m r conf conf sid o h.1),
    read-set r conf sid c s k o p h.0,
    eq_iff sid s,
    eq_iff conf c,
    d.0,
  )

  abbrev pub AllHas2 : R → Dict (Dict (Dict Value)) → Type 0
  AllHas2 r = All (λ e. AllHas r e.0 e.1)

  AllHas-set_calls :
      (conf : String) (m : Dict (Dict Value)) (r : R) (c : String) (m' : Dict (Dict Value))
      → AllHas r c m'
      → AllHas (run_all (set_calls conf m) r) c m'
  AllHas-set_calls conf m r c [] h = tt
  AllHas-set_calls conf m r c ((sid, _) ∷ m') h =
      (has-set_calls conf m r c sid ∙ h.0, AllHas-set_calls conf m r c m' h.1)

  pub AllHas2-set_calls :
      (conf : String) (m : Dict (Dict Value)) (r : R) (d : Dict (Dict (Dict Value)))
      → AllHas2 r d
      → AllHas2 (run_all (set_calls conf m) r) d
  AllHas2-set_calls conf m r [] h = tt
  AllHas2-set_calls conf m r ((c, m') ∷ d) h =
      (AllHas-set_calls conf m r c m' h.0, AllHas2-set_calls conf m r d h.1)

  abbrev pub change_at : Dict (Dict (Dict Value)) → String → String → String → Option Value
  change_at d c s k = elim (lookup2 c s d) [ none ↦ none | some o ↦ lookup k o ]

  pub read-all_sets :
      (d : Dict (Dict (Dict Value))) (r : R) (c s k : String)
      → is_meta k ≡ false
      → Distinct2 d
      → AllHas2 r d
      → read (run_all (each_package set_calls d) r) c s k
        ≡ over (kept other) (change_at d c s k) (read r c s k)
  unfolding each_package lookup2 lookup run_all
  read-all_sets [] r c s k p u h = refl
  read-all_sets ((conf, m) ∷ d) r c s k p u h =
      let r' = run_all (set_calls conf m) r in
      ap (λ x. read x c s k) (run_all-append (set_calls conf m) (each_package set_calls d) r)
      ∙ ground (
        arith,
        read-all_sets d r' c s k p (u.0.1, u.1.1) (AllHas2-set_calls conf m r d h.1),
        read-set_calls conf m r c s k p u.1.0 h.0,
        eq_iff conf c,
        u.0.0,
      )
