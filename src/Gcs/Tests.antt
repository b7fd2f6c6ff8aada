-- ===== src/Gcs/Tests.antt =====
-- The wired panels and workspaces at work.
use uaop.Base.{◌≡◌, refl, true, false, some, none, if◌then◌else◌, List, [], ◌∷◌}
use uaop.Base.Int.{ℤ, pos, negsuc}
use uaop.Base.Text.{Bytes, codes, equal}
use uaop.Gcs.Startup.{has_flag, load_bundled_fonts, platform, timer_fired, exit_status}
use uaop.Gcs.Panels.{PanelDefinition, PanelRegistry, panel_ids}
use uaop.Gcs.Workspaces.{Workspace, no_workspaces, workspace_names, set_indices, current_layout}
use uaop.Gcs.Tiles.{tiles_per_axis}
use uaop.Gcs.Wiring.{register_panels, register_workspaces, IsLayoutShown, set_indices-IsLayoutShown}

panel_ids-wired :
    panel_ids (register_panels [])
    ≡ codes "flight" ∷ codes "mission" ∷ codes "compliance" ∷ codes "map" ∷ []
unfolding panel_ids register_panels
panel_ids-wired = refl

workspace_names-wired :
    workspace_names (register_workspaces no_workspaces) ≡ codes "FLIGHT OPS" ∷ codes "REVIEW" ∷ []
unfolding workspace_names register_workspaces no_workspaces
workspace_names-wired = refl

abbrev other_map : PanelDefinition
other_map = record {
  id = codes "map";
  title = codes "OTHER";
  source = [];
  min_width = pos 1;
  min_height = pos 1;
}

abbrev maps : PanelRegistry
maps = record other_map { title = codes "MAP" } ∷ []

abbrev two_workspaces : List Workspace
two_workspaces =
    (record { name = codes "a"; columns = [] }) ∷ (record { name = codes "b"; columns = [] }) ∷ []

set_indices-IsLayoutShown_example :
    IsLayoutShown
      (register_panels [])
      (current_layout (set_indices (pos 1 ∷ pos 7 ∷ []) (register_workspaces no_workspaces)))
set_indices-IsLayoutShown_example = set_indices-IsLayoutShown (pos 1 ∷ pos 7 ∷ [])

tiles_per_axis-clamped : tiles_per_axis (pos 30) ≡ 4194304
unfolding tiles_per_axis
tiles_per_axis-clamped = refl

abbrev flag : Bytes
flag = codes "--selfcheck"

has_flag-program_name : has_flag (flag ∷ codes "--verbose" ∷ []) flag ≡ false
unfolding has_flag equal
has_flag-program_name = refl

abbrev no_bold : Bytes → ℤ
no_bold path = if equal path (codes ":/fonts/Poppins-Bold.ttf") then negsuc 0 else pos 1

load_bundled_fonts-no_bold :
    load_bundled_fonts no_bold ≡ codes "failed to load bundled font: :/fonts/Poppins-Bold.ttf" ∷ []
unfolding load_bundled_fonts equal
load_bundled_fonts-no_bold = refl

selfcheck_platform :
    platform (has_flag (codes "uaop-gcs" ∷ flag ∷ []) flag) none ≡ some (codes "offscreen")
unfolding platform has_flag equal
selfcheck_platform = refl

selfcheck_empty : exit_status true (timer_fired true ∷ []) ≡ some 1
unfolding exit_status
selfcheck_empty = refl
