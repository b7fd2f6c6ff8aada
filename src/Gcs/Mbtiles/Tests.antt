-- ===== src/Gcs/Mbtiles/Tests.antt =====
-- A file with one tile, its data given as text, and what is given out for its id and for others.
use uaop.Base.{
  ℕ, ◌+◌, ◌≡◌, refl, Bool, true, false, ◌&&◌, List, [], ◌∷◌, ◌++◌, Option, none, some, ◌==◌,
  if◌then◌else◌,
}
use uaop.Base.Decimal.{read_digits}
use uaop.Base.Int.{ℤ, pos, negsuc, equal_int}
use uaop.Base.Text.{Bytes, codes}
use uaop.Gcs.Mbtiles.{Qt, MbtilesProvider, new_provider, request_image, parse_id, tile_image}
use uaop.Gcs.Tiles.{tiles_per_axis, xyz_to_tms_row}

-- `split('/')`, with the part read so far.
abbrev split_from : Bytes → Bytes → List Bytes
split_from part [] = part ∷ []
split_from part (c ∷ cs) =
    let here = split_from [] cs in
    let on = split_from (part ++ c ∷ []) cs in if c == b'/' then part ∷ here else on

abbrev whole : ℕ × Bytes → Option ℤ
whole (n, []) = some (pos n)
whole (n, c ∷ cs) = none

abbrev digits : Bytes → Option ℤ
digits [] = none
digits (c ∷ cs) = whole (read_digits 0 (c ∷ cs))

abbrev number_text : ℤ → Bytes
number_text (pos n) = (b'0' + n) ∷ []
number_text (negsuc n) = b'-' ∷ []

-- An image is a text, the null image nothing; data that starts with '!' cannot be read.
abbrev load : Bytes → Option Bytes
load [] = none
load (c ∷ cs) = if c == b'!' then none else some (c ∷ cs)

abbrev lacks : Option Bytes → Bool
lacks none = true
lacks (some img) = false

abbrev small_qt : Qt (Option Bytes) Bytes
small_qt = record {
  split = split_from [];
  to_int = digits;
  to_long_long = digits;
  number = number_text;
  load_from_data = load;
  null_image = none;
  is_null = lacks;
  size = λ img. (256, 256);
  placeholder_tile = some;
}

abbrev one_tile : ℤ → ℤ → ℤ → Option Bytes
one_tile z x row =
    if equal_int z (pos 3) && equal_int x (pos 5) && equal_int row (pos 6)
    then some (codes "sea")
    else none

abbrev zooms : Bytes → Option ℤ
zooms name = some (pos 3)

abbrev provider : MbtilesProvider Bytes
provider = record { is_open = true; min_zoom = pos 3; max_zoom = pos 3; tile_data = one_tile }

new_provider-open : new_provider true true zooms one_tile ≡ provider
unfolding new_provider
new_provider-open = refl

request_image-no_tile :
    (request_image small_qt provider (codes "3/5/2")).0 ≡ some (codes "no tile\nz3/5/2")
unfolding request_image parse_id tile_image xyz_to_tms_row tiles_per_axis read_digits
request_image-no_tile = refl

request_image-invalid :
    (request_image small_qt provider (codes "3/5")).0 ≡ some (codes "invalid tile id")
unfolding request_image parse_id read_digits
request_image-invalid = refl

request_image-closed :
    (request_image small_qt (new_provider true false zooms one_tile) (codes "3/5/1")).0
    ≡ some (codes "map data unavailable")
unfolding request_image parse_id read_digits new_provider
request_image-closed = refl

parsed : parse_id small_qt (codes "3/5/1") ≡ some (pos 3, pos 5, pos 1)
unfolding parse_id read_digits
parsed = refl

sea_shown : (request_image small_qt provider (codes "3/5/1")).0 ≡ some (codes "sea")
unfolding request_image parse_id tile_image xyz_to_tms_row tiles_per_axis read_digits
sea_shown = refl
