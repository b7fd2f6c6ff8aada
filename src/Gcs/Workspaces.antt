-- ===== src/Gcs/Workspaces.antt =====
-- core/WorkspaceManager.cpp and core/WorkspaceManager.h. An `int` index is a signed integer; the
-- signals emitted are counted.
use uaop.Base.{
  ℕ, suc, Bool-cases, inl, inr, ◌+◌, ◌<◌, ◌≡◌, refl, ◌∙◌, ap, Bool, false, ◌||◌, List, [], ◌∷◌,
  ◌++◌, map, Option, none, some, leb, ◌==◌, if◌then◌else◌, arith,
}
use uaop.Base.Int.{ℤ, pos, negsuc}
use uaop.Base.Lists.{length, get_elem?}
use uaop.Base.Text.{Bytes}

pub record WorkspaceColumn : Type 0 where
  pub panel_ids : List Bytes
  pub stretch : ℤ

pub record Workspace : Type 0 where
  pub name : Bytes
  pub columns : List WorkspaceColumn

pub record WorkspaceManager : Type 0 where
  pub workspaces : List Workspace
  pub current_index : ℤ
  pub changes_emitted : ℕ

unfoldable pub no_workspaces : WorkspaceManager
no_workspaces = record { workspaces = []; current_index = pos 0; changes_emitted = 0 }

unfoldable pub add_workspace : Workspace → WorkspaceManager → WorkspaceManager
add_workspace ws m = record m { workspaces = m.workspaces ++ ws ∷ [] }

unfoldable pub workspace_names : WorkspaceManager → List Bytes
workspace_names m = map (λ ws. ws.name) m.workspaces

abbrev pub same_index : ℕ → ℤ → Bool
same_index i (pos j) = i == j
same_index i (negsuc j) = false

unfoldable pub set_current_index : ℤ → WorkspaceManager → WorkspaceManager
set_current_index (negsuc i) m = m
set_current_index (pos i) m =
    if leb (length m.workspaces) i || same_index i m.current_index
    then m
    else record m { current_index = pos i; changes_emitted = suc m.changes_emitted }

abbrev columns_of : Option Workspace → List WorkspaceColumn
columns_of none = []
columns_of (some ws) = ws.columns

abbrev columns_at : ℤ → List Workspace → List WorkspaceColumn
columns_at (negsuc i) workspaces = []
columns_at (pos i) workspaces = columns_of (get_elem? workspaces i)

unfoldable pub current_layout : WorkspaceManager → List WorkspaceColumn
current_layout m = columns_at m.current_index m.workspaces

-- Indices that are set one after the other.
unfoldable pub set_indices : List ℤ → WorkspaceManager → WorkspaceManager
set_indices [] m = m
set_indices (z ∷ zs) m = set_indices zs (set_current_index z m)

-- The last of them that names one of `n` workspaces, or else the one before.
abbrev pub last_valid : ℕ → List ℤ → ℕ → ℕ
last_valid n [] old = old
last_valid n (negsuc i ∷ zs) old = last_valid n zs old
last_valid n (pos i ∷ zs) old = last_valid n zs (if leb n i then old else i)

-- How often the valid ones differ from the one before.
abbrev pub switches : ℕ → List ℤ → ℕ → ℕ
switches n [] old = 0
switches n (negsuc i ∷ zs) old = switches n zs old
switches n (pos i ∷ zs) old =
    if leb n i then switches n zs old else (if i == old then 0 else 1) + switches n zs i

abbrev at : List Workspace → ℕ → ℕ → WorkspaceManager
at ws i emitted = record { workspaces = ws; current_index = pos i; changes_emitted = emitted }

set_current_index_negative : (i : ℕ) (m : WorkspaceManager) → set_current_index (negsuc i) m ≡ m
unfolding set_current_index
set_current_index_negative i m = refl

set_current_index-at :
    (i : ℕ) (ws : List Workspace) (old emitted : ℕ)
    → set_current_index (pos i) (at ws old emitted) ≡ (
        if leb (length ws) i
        then at ws old emitted
        else at ws i ((if i == old then 0 else 1) + emitted))
unfolding set_current_index
set_current_index-at i ws old emitted = ground arith

-- Whatever indices are set one after the other, the workspaces stay, the current index is the
-- last one that was valid, and the change is signalled exactly as often as the index changes.
pub set_indices-last_valid :
    (zs : List ℤ) (ws : List Workspace) (old emitted : ℕ)
    → set_indices zs
        (record { workspaces = ws; current_index = pos old; changes_emitted = emitted })
      ≡ record {
        workspaces = ws;
        current_index = pos (last_valid (length ws) zs old);
        changes_emitted = switches (length ws) zs old + emitted;
      }
unfolding set_indices
set_indices-last_valid [] ws old emitted = ap (at ws old) (omega arith)
set_indices-last_valid (negsuc i ∷ zs) ws old emitted =
    ap (set_indices zs) (set_current_index_negative i (at ws old emitted))
    ∙ set_indices-last_valid zs ws old emitted
set_indices-last_valid (pos i ∷ zs) ws old emitted =
    ap (set_indices zs) (set_current_index-at i ws old emitted)
    ∙ elim (Bool-cases (leb (length ws) i)) [
      | inl outside ↦ rw outside (set_indices-last_valid zs ws old emitted)
      | inr inside ↦
          let step : ℕ = if i == old then 0 else 1 in
          rw inside (
            set_indices-last_valid zs ws i (step + emitted)
            ∙ ap (at ws (last_valid (length ws) zs i)) (omega arith))
    ]

pub last_valid-lt : (n : ℕ) (zs : List ℤ) (old : ℕ) → old < n → last_valid n zs old < n
last_valid-lt n [] old h = h
last_valid-lt n (negsuc i ∷ zs) old h = last_valid-lt n zs old h
last_valid-lt n (pos i ∷ zs) old h = ground (arith, last_valid-lt n zs (if leb n i then old else i))
