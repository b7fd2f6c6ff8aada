-- ===== src/Gcs/Wiring.antt =====
-- main.cpp: the panels and workspaces that the ground station is wired with, and what the shell
-- can show of them.
use uaop.Base.{ℕ, zero, suc, ◌+◌, ◌<◌, ◌≡◌, ◌≢◌, refl, true, List, [], ◌∷◌, arith}
use uaop.Base.Int.{ℤ, pos}
use uaop.Base.Lists.{All}
use uaop.Base.Text.{Bytes, codes, equal}
use uaop.Gcs.Panels.{PanelDefinition, PanelRegistry, register_panel, panel, is_some}
use uaop.Gcs.Workspaces.{
  WorkspaceColumn, WorkspaceManager, no_workspaces, add_workspace, set_indices, current_layout,
  last_valid, last_valid-lt, switches, set_indices-last_valid,
}

abbrev def : Bytes → Bytes → Bytes → ℕ → ℕ → PanelDefinition
def id title source width height = record {
  id = id;
  title = title;
  source = source;
  min_width = pos width;
  min_height = pos height;
}

unfoldable pub register_panels : PanelRegistry → PanelRegistry
unfolding register_panel
register_panels registry =
    register_panel (def (codes "map") (codes "MAP") (codes "components/MapView.qml") 400 320) (
      register_panel
        (def (codes "compliance") (codes "PRE-FLIGHT COMPLIANCE")
          (codes "views/compliance/ComplianceView.qml") 360 320)
        (register_panel
          (def (codes "mission") (codes "MISSION") (codes "views/mission/MissionView.qml") 400 320)
          (register_panel
            (def (codes "flight") (codes "FLIGHT TELEMETRY")
              (codes "views/telemetry/TelemetryView.qml") 480 320)
            registry)))

abbrev column : List Bytes → ℕ → WorkspaceColumn
column panel_ids stretch = record { panel_ids = panel_ids; stretch = pos stretch }

unfoldable pub register_workspaces : WorkspaceManager → WorkspaceManager
unfolding add_workspace
register_workspaces manager =
    add_workspace
      (record {
        name = codes "REVIEW";
        columns = column (codes "compliance" ∷ []) 1 ∷ column (codes "flight" ∷ []) 2 ∷ [];
      })
      (add_workspace
        (record {
          name = codes "FLIGHT OPS";
          columns =
              column (codes "flight" ∷ []) 3
              ∷ column (codes "map" ∷ []) 2
              ∷ column (codes "mission" ∷ codes "compliance" ∷ []) 2
              ∷ [];
        })
        manager)

-- Every panel of a column is registered, and the column has one.
abbrev pub IsShown : PanelRegistry → WorkspaceColumn → Type 0
IsShown registry c = (c.panel_ids ≢ []) × All (λ id. is_some (panel id registry) ≡ true) c.panel_ids

abbrev pub IsLayoutShown : PanelRegistry → List WorkspaceColumn → Type 0
IsLayoutShown registry layout = (layout ≢ []) × All (IsShown registry) layout

shown_at :
    (i emitted : ℕ)
    → i < 2
    → IsLayoutShown (register_panels []) (
        current_layout (record (register_workspaces no_workspaces) {
          current_index = pos i;
          changes_emitted = emitted;
        }))
unfolding register_workspaces no_workspaces register_panels current_layout panel equal
shown_at zero emitted h = (
  (λ e. cc),
  (((λ e. cc), (refl, tt)), (((λ e. cc), (refl, tt)), (((λ e. cc), (refl, (refl, tt))), tt))),
)
shown_at (suc zero) emitted h =
    ((λ e. cc), (((λ e. cc), (refl, tt)), (((λ e. cc), (refl, tt)), tt)))
shown_at (suc (suc i)) emitted h = ground arith

-- Whatever workspace indices the shell sets, the current layout has columns, each column has
-- panels, and each of these panels is registered, so that the shell meets no unknown panel.
pub set_indices-IsLayoutShown :
    (zs : List ℤ)
    → IsLayoutShown
        (register_panels [])
        (current_layout (set_indices zs (register_workspaces no_workspaces)))
unfolding register_workspaces no_workspaces
set_indices-IsLayoutShown zs =
    rw (set_indices-last_valid zs _ 0 0)
      (shown_at (last_valid 2 zs 0) (switches 2 zs 0 + 0) (last_valid-lt 2 zs 0 (omega arith)))
