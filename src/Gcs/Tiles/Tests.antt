-- ===== src/Gcs/Tiles/Tests.antt =====
-- The projections with integers for doubles, which divide downwards, and 3 for pi.
use uaop.Base.{ℕ, suc, ◌*◌, ◌/◌, ◌≡◌, refl}
use uaop.Base.Int.{ℤ, pos, negsuc, neg, minus}
use uaop.Gcs.Tiles.{tiles_per_axis}
use uaop.Gcs.Tiles.Projection.{MapOps, lon_lat_to_tile_frac, tile_frac_to_lon_lat}

abbrev add : ℤ → ℤ → ℤ
add a (pos b) = minus a (neg b)
add a (negsuc b) = minus a (pos (suc b))

abbrev times_nat : ℤ → ℕ → ℤ
times_nat (pos a) c = pos (a * c)
times_nat (negsuc a) c = neg (suc a * c)

abbrev product : ℤ → ℤ → ℤ
product a (pos c) = times_nat a c
product a (negsuc c) = minus (pos 0) (times_nat a (suc c))

abbrev divide_nat : ℤ → ℕ → ℤ
divide_nat (pos a) c = pos (a / c)
divide_nat (negsuc a) c = negsuc (a / c)

abbrev quotient : ℤ → ℤ → ℤ
quotient a (pos c) = divide_nat a c
quotient a (negsuc c) = pos 0

abbrev whole : MapOps ℤ
whole = record {
  of_int = λ a. a;
  pi = pos 3;
  plus = add;
  subtract = minus;
  times = product;
  divide = quotient;
  tan = λ a. a;
  asinh = λ a. a;
  sinh = λ a. a;
  atan = λ a. a;
}

east_edge : (lon_lat_to_tile_frac whole (pos 180) (pos 0) (pos 3)).x ≡ pos 8
unfolding lon_lat_to_tile_frac tiles_per_axis
east_edge = refl

-- Halves are rounded down here.
middle : lon_lat_to_tile_frac whole (pos 0) (pos 0) (pos 3) ≡ record { x = pos 0; y = pos 0 }
unfolding lon_lat_to_tile_frac tiles_per_axis
middle = refl

west_corner : tile_frac_to_lon_lat whole (pos 0) (pos 4) (pos 3) ≡ (neg 180, pos 0)
unfolding tile_frac_to_lon_lat tiles_per_axis
west_corner = refl
