-- ===== src/Cbi/Map/Frame.antt =====
-- What the `save` of a form leaves alone.
use xluci.Prelude.{String, false, none, ◌≡◌, refl, inl, inr, Bool-cases}
use xluci.Uci.Store.{State, is_meta}
use xluci.Uci.Access.{get_option}
use xluci.Uci.Save.Sets.{Distinct2}
use xluci.Cbi.Js.{Js}
use xluci.Cbi.Run.{state_of}
use xluci.Cbi.Field.{Page}
use xluci.Cbi.Tree.{save_nodes}
use xluci.Cbi.Tree.Frame.{Keeps, Keeps-then, UnnamedNodes, save_nodes-Keeps}
use xluci.Cbi.Map.{FormMap, save_map}

-- The `save` of a form, whether it returns or throws, changes no option under whose name no field of it,
-- nor of its subsections, is stored, in any section of any package, if those fields that have a `save`
-- of their own keep the option, and options.save keeps it; the option is no attribute, and the created
-- sections have distinct names.
pub save_map-other :
    (js : Js) (page : Page) (m : FormMap) (st : State) (c s o : String)
    → Distinct2 st.creates
    → is_meta o ≡ false
    → UnnamedNodes c s o m.sections
    → Keeps c s o m.on_save
    → get_option (state_of (save_map js page m st)) c s o ≡ get_option st c s o
unfolding save_map
save_map-other js page m st c s o d plain other on_save = elim (Bool-cases m.readonly) [
  | inl r ↦ rw (r, save_map) refl
  | inr w ↦
      rw (w, save_map)
        (Keeps-then c s o (save_nodes js page m.uci_package m.sections none) m.on_save
          (save_nodes-Keeps c s o js page m.uci_package m.sections none plain other) on_save st d).0
]
