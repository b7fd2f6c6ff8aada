-- ===== src/Gcs/Mbtiles.antt =====
-- map/MbtilesProvider.cpp and its header: map tiles from an MBTiles file. Qt's texts, images and
-- database are parameters: the record `Qt`, and what the provider's queries return. Rows are
-- integers without bounds; the code's subtraction overflows for rows next to the least `qint64`.
pub mod Outcome
mod Tests
use mathlib.Core.Option
use uaop.Base.{
  sym, ap, ◌∙◌, ℕ, ◌-◌, ◌^◌, ◌<◌, ◌≡◌, refl, ◌⊎◌, inl, inr, Bool, true, false, ◌&&◌, List, [], ◌∷◌,
  ◌++◌, Option, none, some, if◌then◌else◌, Bool-cases, Option-cases,
}
use uaop.Base.Int.{ℤ, pos, minus}
use uaop.Base.Lists.{get_elem?}
use uaop.Base.Text.{Bytes, codes}
use uaop.Gcs.Tiles.{clamp_zoom, xyz_to_tms_row, xyz_to_tms_row-involutive, xyz_to_tms_row_lem}

-- `split('/')`, `toInt` and `toLongLong` with their `ok`, `arg` of a number, `loadFromData` on a
-- new image, `isNull`, `size`, and the drawing of a placeholder's frame and text.
pub record Qt (Image Blob : Type 0) : Type 0 where
  pub split : Bytes → List Bytes
  pub to_int : Bytes → Option ℤ
  pub to_long_long : Bytes → Option ℤ
  pub number : ℤ → Bytes
  pub load_from_data : Blob → Image
  pub null_image : Image
  pub is_null : Image → Bool
  pub size : Image → ℕ × ℕ
  pub placeholder_tile : Bytes → Image

-- `tile_data` is what the query for a zoom level, column and row returns: nothing if it fails or
-- finds no row.
pub record MbtilesProvider (Blob : Type 0) : Type 0 where
  pub is_open : Bool
  pub min_zoom : ℤ
  pub max_zoom : ℤ
  pub tile_data : ℤ → ℤ → ℤ → Option Blob

abbrev pub or_zero : Option ℤ → ℤ
or_zero none = pos 0
or_zero (some z) = z

-- The constructor: whether the file exists, whether it opens, and what the metadata holds for a
-- name, read as a number.
unfoldable pub new_provider :
    {Blob : Type 0}
    → Bool
    → Bool
    → (Bytes → Option ℤ)
    → (ℤ → ℤ → ℤ → Option Blob)
    → MbtilesProvider Blob
new_provider exists opens metadata tile_data =
    if exists && opens
    then record {
      is_open = true;
      min_zoom = or_zero (metadata (codes "minzoom"));
      max_zoom = or_zero (metadata (codes "maxzoom"));
      tile_data = tile_data;
    }
    else record { is_open = false; min_zoom = pos 0; max_zoom = pos 0; tile_data = tile_data }

abbrev pub part : (Bytes → Option ℤ) → Option Bytes → Option ℤ
part read none = none
part read (some s) = read s

-- The numbers `z`, `x` and `y` of an id, if all three are read.
abbrev pub all_read : Option ℤ → Option ℤ → Option ℤ → Option (ℤ × ℤ × ℤ)
all_read (some z) (some x) (some y) = some (z, x, y)
all_read _ _ _ = none

module _ {Image Blob : Type 0} (qt : Qt Image Blob) where
  open qt use {
    split, to_int, to_long_long, number, load_from_data, null_image, is_null, size,
    placeholder_tile,
  }

  unfoldable pub parse_id : Bytes → Option (ℤ × ℤ × ℤ)
  parse_id id =
      let parts = split id in
      all_read (part to_int (get_elem? parts 0)) (part to_long_long (get_elem? parts 1))
        (part to_long_long (get_elem? parts 2))

  abbrev pub loaded : Option Blob → Image
  loaded none = null_image
  loaded (some blob) = load_from_data blob

  abbrev pub missing : ℤ → ℤ → ℤ → Bytes
  missing z x y =
      codes "no tile\nz" ++ (number z ++ (codes "/" ++ (number x ++ (codes "/" ++ number y))))

  unfoldable pub tile_image : MbtilesProvider Blob → ℤ → ℤ → ℤ → Image
  tile_image p z x y =
      let img = loaded (p.tile_data z x (xyz_to_tms_row y z)) in
      if is_null img then placeholder_tile (missing z x y) else img

  abbrev pub requested : MbtilesProvider Blob → Option (ℤ × ℤ × ℤ) → Image
  requested p none =
      placeholder_tile (if p.is_open then codes "invalid tile id" else codes "map data unavailable")
  requested p (some (z, x, y)) =
      if p.is_open then tile_image p z x y else placeholder_tile (codes "map data unavailable")

  -- The image, and the size that is stored where `size` points.
  unfoldable pub request_image : MbtilesProvider Blob → Bytes → Image × (ℕ × ℕ)
  unfolding parse_id tile_image
  request_image p id = let img = requested p (parse_id id) in (img, size img)
