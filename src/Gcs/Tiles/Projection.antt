-- ===== src/Gcs/Tiles/Projection.antt =====
-- map/SlippyMath.h: the projections between longitude and latitude and the square of tiles. A
-- `double` is a type `D` with the operations that the code uses.
use uaop.Base.{ℕ}
use uaop.Base.Int.{ℤ, pos}
use uaop.Gcs.Tiles.{tiles_per_axis}

-- `of_int` is a constant of the code, or the cast of a number of tiles.
pub record MapOps (D : Type 0) : Type 0 where
  pub of_int : ℤ → D
  pub pi : D
  pub plus : D → D → D
  pub subtract : D → D → D
  pub times : D → D → D
  pub divide : D → D → D
  pub tan : D → D
  pub asinh : D → D
  pub sinh : D → D
  pub atan : D → D

pub record PixelPoint (D : Type 0) : Type 0 where
  pub x : D
  pub y : D

module _ {D : Type 0} (ops : MapOps D) where
  open ops use {of_int, pi, plus, subtract, times, divide, tan, asinh, sinh, atan}

  abbrev pub number : ℕ → D
  number n = of_int (pos n)

  -- `static_cast<double>(tilesPerAxis(z))`.
  abbrev pub tiles : ℤ → D
  tiles z = number (tiles_per_axis z)

  abbrev pub lat_rad : D → D
  lat_rad lat_deg = divide (times lat_deg pi) (number 180)

  unfoldable pub lon_lat_to_tile_frac : D → D → ℤ → PixelPoint D
  lon_lat_to_tile_frac lon_deg lat_deg z = record {
    x = times (divide (plus lon_deg (number 180)) (number 360)) (tiles z);
    y =
        times (divide (subtract (number 1) (divide (asinh (tan (lat_rad lat_deg))) pi)) (number 2))
          (tiles z);
  }

  -- The longitude and the latitude.
  unfoldable pub tile_frac_to_lon_lat : D → D → ℤ → D × D
  tile_frac_to_lon_lat x_frac y_frac z =
      let lat_rad =
        atan (sinh (times pi (subtract (number 1) (divide (times (number 2) y_frac) (tiles z))))) in
      (
        subtract (times (divide x_frac (tiles z)) (number 360)) (number 180),
        divide (times lat_rad (number 180)) pi,
      )
