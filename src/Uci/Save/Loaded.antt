-- ===== src/Uci/Save/Loaded.antt =====
-- What is in the store after `load` and `unload`.
use xluci.Prelude.{
  String, not, ◌&&◌, none, some, List, [], ◌∷◌, ◌≡◌, refl, arith, eq_iff, if◌then◌else◌,
}
use xluci.Prelude.Dict.{Dict, lookup, put, lookup-put}
use xluci.Uci.Store.{Section, State}
use xluci.Uci.Access.{is_some, contains}
use xluci.Uci.Save.{missing, store_replies, load}

contains-missing :
    (st : State) (seen : Dict (Unit {0})) (packages : List String) (y : String)
    → contains (missing st seen packages) y ≡ (
        contains packages y
        && (not (is_some (lookup y seen)) && not (is_some (lookup y st.values))))
unfolding missing contains is_some
contains-missing st seen [] y = refl
contains-missing st seen (p ∷ packages) y = ground (
  arith,
  contains-missing st seen packages y,
  contains-missing st (put p tt seen) packages y,
  lookup-put p y tt seen,
  eq_iff p y,
)

lookup-store_replies :
    (fetch : String → Dict Section) (pkgs : List String) (v : Dict (Dict Section)) (y : String)
    → lookup y (store_replies fetch pkgs v)
      ≡ (if contains pkgs y then some (fetch y) else lookup y v)
unfolding store_replies contains
lookup-store_replies fetch [] v y = refl
lookup-store_replies fetch (p ∷ pkgs) v y = ground (
  arith,
  lookup-store_replies fetch pkgs (put p (fetch p) v) y,
  lookup-put p y (fetch p) v,
  eq_iff p y,
)

-- After `load(packages)` and its replies, a package that was loaded before has the sections that it
-- had, and any other has those of its reply if it was asked for, and none otherwise; nothing of the
-- edits changes.
pub load_lem :
    (fetch : String → Dict Section) (st : State) (packages : List String)
    → ((conf : String)
        → lookup conf (load fetch st packages).1.values ≡ (
            if is_some (lookup conf st.values)
            then lookup conf st.values
            else if contains packages conf
            then some (fetch conf)
            else none))
      × ((load fetch st packages).1 ≡ record st { values = (load fetch st packages).1.values })
unfolding load is_some lookup
load_lem fetch st packages = (
  λ conf. ground (
    arith,
    lookup-store_replies fetch (missing st [] packages) st.values conf,
    contains-missing st [] packages conf,
  ),
  refl,
)
