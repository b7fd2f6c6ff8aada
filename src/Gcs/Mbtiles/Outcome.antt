-- ===== src/Gcs/Mbtiles/Outcome.antt =====
-- What the provider of map tiles gives out for an id, beside what its file holds.
use mathlib.Core.Option
use uaop.Base.{◌-◌, ◌^◌, ◌≡◌, ◌⊎◌, true, false, Option, some}
use uaop.Base.Int.{ℤ, pos, minus}
use uaop.Base.Lists.{get_elem?}
use uaop.Base.Text.{Bytes}
use uaop.Gcs.Tiles.{clamp_zoom}
use uaop.Gcs.Mbtiles.{Qt, MbtilesProvider}

module _ {Image Blob : Type 0} (qt : Qt Image Blob) where
  open qt use {
    split, to_int, to_long_long, load_from_data, null_image, is_null, size, placeholder_tile,
  }

  unfoldable pub IsPlaceholder : Image → Type 0
  IsPlaceholder img = (reason : Bytes) × (placeholder_tile reason ≡ img)

  -- An id names a tile: its first three parts are the zoom, the column and the row.
  pub record Names (id : Bytes) (z x y : ℤ) : Type 0 where
    pub zoom_part : (s : Bytes) × (get_elem? (split id) 0 ≡ some s) × (to_int s ≡ some z)
    pub column_part : (s : Bytes) × (get_elem? (split id) 1 ≡ some s) × (to_long_long s ≡ some x)
    pub row_part : (s : Bytes) × (get_elem? (split id) 2 ≡ some s) × (to_long_long s ≡ some y)

  -- The tile that an open file holds for an id, under the row counted from the other edge (the last
  -- one is 2^zoom - 1), and which can be read.
  pub record Stored (p : MbtilesProvider Blob) (id : Bytes) (img : Image) : Type 0 where
    pub z : ℤ
    pub x : ℤ
    pub y : ℤ
    pub row : ℤ
    pub blob : Blob
    pub is_open : p.is_open ≡ true
    pub named : Names id z x y
    pub turned : minus (pos (2 ^ clamp_zoom z - 1)) row ≡ y
    pub found : p.tile_data z x row ≡ some blob
    pub read : load_from_data blob ≡ img
    pub readable : is_null img ≡ false

  abbrev IsOutcome : MbtilesProvider Blob → Bytes → Image → Type 0
  IsOutcome p id img =
      Stored p id img ⊎ (((other : Image) → Stored p id other → ⊥) × IsPlaceholder img)
