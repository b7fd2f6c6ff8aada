-- ===== src/Gcs/Tiles.antt =====
-- map/SlippyMath.h: the rows of map tiles. An `int` and an `int64_t` are integers without bounds;
-- the code overflows only for rows next to the least `int64_t`, which no map has.
pub mod Projection
mod Tests
use uaop.Base.{ℕ, zero, suc, ◌-◌, ◌^◌, ◌<◌, ◌≤◌, ◌≡◌, ap, leb, if◌then◌else◌, arith}
use uaop.Base.Int.{ℤ, pos, negsuc, diff, minus}

-- `std::clamp(z, 0, 22)`.
abbrev pub clamp_zoom : ℤ → ℕ
clamp_zoom (negsuc z) = 0
clamp_zoom (pos z) = if leb z 22 then z else 22

unfoldable pub tiles_per_axis : ℤ → ℕ
tiles_per_axis z = 2 ^ clamp_zoom z

unfoldable pub xyz_to_tms_row : ℤ → ℤ → ℤ
unfolding tiles_per_axis
xyz_to_tms_row xyz_y z = minus (minus (pos (tiles_per_axis z)) (pos 1)) xyz_y

one_le_power : (n : ℕ) → 1 ≤ 2 ^ n
one_le_power zero = omega arith
one_le_power (suc n) = omega (arith, one_le_power n)

one_le-tiles_per_axis : (z : ℤ) → 1 ≤ tiles_per_axis z
unfolding tiles_per_axis
one_le-tiles_per_axis z = one_le_power (clamp_zoom z)

minus-minus : (n : ℕ) (y : ℤ) → 1 ≤ n → minus (diff n 1) (minus (diff n 1) y) ≡ y
minus-minus n (pos y) h = ground arith
minus-minus n (negsuc y) h = ground arith

minus_in_range : (n y : ℕ) → y < n → minus (diff n 1) (pos y) ≡ pos (n - 1 - y)
minus_in_range n y h = ground arith

last_index : (n : ℕ) → 1 ≤ n → diff n 1 ≡ pos (n - 1)
last_index n h = ground arith

-- The row counted from the last one.
pub xyz_to_tms_row_lem : (y z : ℤ) → xyz_to_tms_row y z ≡ minus (pos (2 ^ clamp_zoom z - 1)) y
unfolding xyz_to_tms_row tiles_per_axis
xyz_to_tms_row_lem y z =
    ap (λ last. minus last y) (last_index (2 ^ clamp_zoom z) (one_le_power (clamp_zoom z)))

-- Turning a row into the convention of the tile files twice gives the row back, for every row and
-- every zoom.
pub xyz_to_tms_row-involutive : (y z : ℤ) → xyz_to_tms_row (xyz_to_tms_row y z) z ≡ y
unfolding xyz_to_tms_row
xyz_to_tms_row-involutive y z = minus-minus (tiles_per_axis z) y (one_le-tiles_per_axis z)

-- A row of the map becomes a row of the map, counted from the other edge.
pub xyz_to_tms_row_in_range :
    (i : ℕ) (z : ℤ)
    → i < tiles_per_axis z
    → (xyz_to_tms_row (pos i) z ≡ pos (tiles_per_axis z - 1 - i))
      × (tiles_per_axis z - 1 - i < tiles_per_axis z)
unfolding xyz_to_tms_row
xyz_to_tms_row_in_range i z h = (minus_in_range (tiles_per_axis z) i h, omega arith)
