-- ===== src/Gcs/Startup.antt =====
-- main.cpp: what the ground station does before its event loop, and the status of a self-check.
-- Qt's font database and the tile file are parameters, and the engine is what its root objects say.
use uaop.Base.{
  ℕ, zero, suc, ap, inl, inr, Bool-cases, ◌≡◌, ◌↔◌, Bool, true, false, not, ◌&&◌, ◌||◌, List, [],
  ◌∷◌, ◌++◌, Option, none, some, if◌then◌else◌, arith, map,
}
use uaop.Base.Int.{ℤ, negsuc, equal_int}
use uaop.Base.Lists.{get_elem?, select}
use uaop.Base.Text.{Bytes, codes, equal, equal_iff, equal_refl}
use uaop.Gcs.Mbtiles.{MbtilesProvider}
use uaop.Gcs.Panels.{PanelRegistry, is_some}
use uaop.Gcs.Telemetry.{DoubleOps, TelemetryController, new_controller}
use uaop.Gcs.Wiring.{register_panels, register_workspaces}
use uaop.Gcs.Workspaces.{WorkspaceManager, no_workspaces}

abbrev is_any : Bytes → List Bytes → Bool
is_any flag [] = false
is_any flag (arg ∷ args) = equal arg flag || is_any flag args

-- The first argument is the program's name.
unfoldable pub has_flag : List Bytes → Bytes → Bool
has_flag [] flag = false
has_flag (program ∷ args) flag = is_any flag args

abbrev faces : List Bytes
faces = map codes (
    ":/fonts/Poppins-Light.ttf" ∷ ":/fonts/Poppins-LightItalic.ttf" ∷ ":/fonts/Poppins-Regular.ttf"
    ∷ ":/fonts/Poppins-Italic.ttf" ∷ ":/fonts/Poppins-Medium.ttf"
    ∷ ":/fonts/Poppins-MediumItalic.ttf" ∷ ":/fonts/Poppins-Bold.ttf"
    ∷ ":/fonts/Poppins-BoldItalic.ttf" ∷ [])

-- The warnings, for what `addApplicationFont` returns on a path.
unfoldable pub load_bundled_fonts : (Bytes → ℤ) → List Bytes
load_bundled_fonts add_application_font =
    map (λ path. codes "failed to load bundled font: " ++ path)
      (select (λ path. equal_int (add_application_font path) (negsuc 0)) faces)

-- `QT_QPA_PLATFORM` after the check of the arguments.
unfoldable pub platform : Bool → Option Bytes → Option Bytes
platform selfcheck given =
    if selfcheck && not (is_some given) then some (codes "offscreen") else given

pub record Shell (D Blob : Type 0) : Type 0 where
  pub selfcheck : Bool
  pub qpa_platform : Option Bytes
  pub warnings : List Bytes
  pub telemetry_controller : TelemetryController D
  pub panel_registry : PanelRegistry
  pub workspace_manager : WorkspaceManager
  pub mbtiles : MbtilesProvider Blob

module _ {D Blob : Type 0} (ops : DoubleOps D) where
  -- Up to `engine.load`, from the arguments, the environment, the fonts and the tile file.
  unfoldable pub start_up :
      List Bytes → Option Bytes → (Bytes → ℤ) → MbtilesProvider Blob → Shell D Blob
  unfolding has_flag load_bundled_fonts platform
  start_up argv given add_application_font tile_file =
      let selfcheck = has_flag argv (codes "--selfcheck") in
      record {
        selfcheck = selfcheck;
        qpa_platform = platform selfcheck given;
        warnings = load_bundled_fonts add_application_font;
        telemetry_controller = new_controller ops;
        panel_registry = register_panels [];
        workspace_manager = register_workspaces no_workspaces;
        mbtiles = tile_file;
      }

-- What makes the application exit: the engine reports that an object could not be created, or the
-- timer fires, when the engine has root objects or not.
pub data ShellEvent : Type 0 where
  object_creation_failed : ShellEvent
  timer_fired : Bool → ShellEvent

-- The status of the first event that exits; the timer is started for a self-check only.
unfoldable pub exit_status : Bool → List ShellEvent → Option ℕ
exit_status selfcheck [] = none
exit_status selfcheck (object_creation_failed ∷ events) = some 1
exit_status selfcheck (timer_fired no_root_objects ∷ events) =
    let rest = exit_status selfcheck events in
    if selfcheck then some (if no_root_objects then 1 else 0) else rest

is_any-get_elem? :
    (flag : Bytes) (args : List Bytes)
    → is_any flag args ≡ true
    → (i : ℕ) × (get_elem? args i ≡ some flag)
is_any-get_elem? flag [] h = ground arith
is_any-get_elem? flag (arg ∷ args) h = elim (Bool-cases (equal arg flag)) [
  | inl here ↦ (0, ap some ((equal_iff arg flag).0 here))
  | inr later ↦ let (i, e) = is_any-get_elem? flag args (rw later at h) in (suc i, e)
]

get_elem?-is_any :
    (flag : Bytes) (args : List Bytes) (i : ℕ)
    → get_elem? args i ≡ some flag
    → is_any flag args ≡ true
get_elem?-is_any flag [] i e = ground arith
get_elem?-is_any flag (arg ∷ args) zero e = ground (arith, equal_refl flag)
get_elem?-is_any flag (arg ∷ args) (suc i) e = ground (arith, get_elem?-is_any flag args i)

-- A flag is found exactly if it stands somewhere behind the program's name.
pub has_flag_iff :
    (argv : List Bytes) (flag : Bytes)
    → (has_flag argv flag ≡ true) ↔ ((i : ℕ) × (get_elem? argv (suc i) ≡ some flag))
unfolding has_flag
has_flag_iff [] flag = (λ h. ground arith, λ (i, e). ground arith)
has_flag_iff (program ∷ args) flag =
    (is_any-get_elem? flag args, λ (i, e). get_elem?-is_any flag args i e)
