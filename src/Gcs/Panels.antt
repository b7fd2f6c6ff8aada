-- ===== src/Gcs/Panels.antt =====
-- core/PanelRegistry.cpp and core/PanelRegistry.h. A `QVariantMap` of a panel is the definition
-- itself, and the empty map is nothing.
use uaop.Base.{
  ◌≡◌, refl, Bool, true, false, ◌||◌, List, [], ◌∷◌, ◌++◌, map, Option, none, some, if◌then◌else◌,
  arith,
}
use uaop.Base.Int.{ℤ}
use uaop.Base.Text.{Bytes, equal}

pub record PanelDefinition : Type 0 where
  pub id : Bytes
  pub title : Bytes
  pub source : Bytes
  pub min_width : ℤ
  pub min_height : ℤ

abbrev pub PanelRegistry : Type 0
PanelRegistry = List PanelDefinition

unfoldable pub register_panel : PanelDefinition → PanelRegistry → PanelRegistry
register_panel def panels = panels ++ def ∷ []

unfoldable pub panel_ids : PanelRegistry → List Bytes
panel_ids panels = map (λ p. p.id) panels

unfoldable pub panel : Bytes → PanelRegistry → Option PanelDefinition
panel id [] = none
panel id (p ∷ panels) = let rest = panel id panels in if equal p.id id then some p else rest

-- A list of texts holds one.
abbrev pub holds : Bytes → List Bytes → Bool
holds id [] = false
holds id (i ∷ ids) = equal i id || holds id ids

abbrev pub is_some : {A : Type 0} → Option A → Bool
is_some none = false
is_some (some a) = true

pub is_some-panel :
    (id : Bytes) (panels : PanelRegistry) → is_some (panel id panels) ≡ holds id (panel_ids panels)
unfolding panel panel_ids
is_some-panel id [] = refl
is_some-panel id (p ∷ panels) = ground (arith, is_some-panel id panels)

-- The value there is, or else the other one.
abbrev or_else : {A : Type 0} → Option A → Option A → Option A
or_else none b = b
or_else (some a) b = some a

-- Registering a panel makes its id known, and an id that is known already keeps its first
-- definition: the new one is listed but never found.
pub panel-register_panel :
    (id : Bytes) (def : PanelDefinition) (panels : PanelRegistry)
    → (panel id (register_panel def panels)
        ≡ or_else (panel id panels) (if equal def.id id then some def else none))
      × (is_some (panel id (register_panel def panels))
          ≡ (holds id (panel_ids panels) || equal def.id id))
unfolding panel register_panel panel_ids
panel-register_panel id def [] = ground arith
panel-register_panel id def (p ∷ panels) = ground (arith, panel-register_panel id def panels)
