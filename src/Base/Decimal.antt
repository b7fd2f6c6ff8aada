-- ===== src/Base/Decimal.antt =====
-- `std::to_string` and `operator<<` on unsigned integers: decimal digits with no leading zero, and
-- the value that a run of digits stands for.
use Prim.Native.Nat.{ℕ, zero, suc, ◌+◌, ◌-◌, ◌*◌, ◌/◌, ◌%◌, ◌<◌}
use mathlib.Core.Path.{◌≡◌, refl}
use mathlib.Core.Logic.{◌≢◌}
use mathlib.Core.Bool.{Bool, true, ◌&&◌}
use mathlib.Core.List.{[], ◌∷◌, ◌++◌}
use native.Mathlib.Omega.{arith}
use mathlib.Core.Logic.{inl, inr}
use uaop.Base.Tests.{Bool-cases, ltb, leb, if◌then◌else◌}
use uaop.Base.Lists.{All}
use uaop.Base.Text.{Bytes}

abbrev pub is_digit : ℕ → Bool
is_digit c = leb b'0' c && leb c b'9'

-- Writes the digits of `n` in front of `rest`; the fuel bounds their number.
unfoldable pub print_onto : ℕ → ℕ → Bytes → Bytes
print_onto zero n rest = rest
print_onto (suc f) n rest =
    let more = print_onto f (n / 10) ((b'0' + n % 10) ∷ rest) in
    if ltb n 10 then (b'0' + n) ∷ rest else more

unfoldable pub to_string : ℕ → Bytes
unfolding print_onto
to_string n = print_onto (suc n) n []

-- The digits at the head of a text, read after the value so far, and what follows them.
unfoldable pub read_digits : ℕ → Bytes → ℕ × Bytes
read_digits acc [] = (acc, [])
read_digits acc (c ∷ cs) =
    let more = read_digits (acc * 10 + (c - b'0')) cs in if is_digit c then more else (acc, c ∷ cs)

-- Digits that are read after `acc` shift it by the digits printed.
print_onto-read_digits :
    (f n : ℕ) (rest : Bytes) → n < f → read_digits 0 (print_onto f n rest) ≡ read_digits n rest
unfolding print_onto read_digits
print_onto-read_digits zero n rest h = elim h [ ]
print_onto-read_digits (suc f) n rest h =
    ground (arith, print_onto-read_digits f (n / 10) ((b'0' + n % 10) ∷ rest))

-- What follows starts with no digit.
abbrev pub Stops : Bytes → Type 0
Stops [] = Unit
Stops (c ∷ cs) = is_digit c ≢ true

pub print_onto-append :
    (f n : ℕ) (xs ys : Bytes) → print_onto f n (xs ++ ys) ≡ print_onto f n xs ++ ys
unfolding print_onto
print_onto-append zero n xs ys = refl
print_onto-append (suc f) n xs ys =
    ground (arith, print_onto-append f (n / 10) ((b'0' + n % 10) ∷ xs) ys)

read_digits-Stops : (n : ℕ) (rest : Bytes) → Stops rest → read_digits n rest ≡ (n, rest)
unfolding read_digits
read_digits-Stops n [] h = refl
read_digits-Stops n (c ∷ cs) h = ground arith

-- A printed number is read back, up to what follows.
pub read_digits-to_string :
    (n : ℕ) (rest : Bytes) → Stops rest → read_digits 0 (to_string n ++ rest) ≡ (n, rest)
unfolding to_string
read_digits-to_string n rest h =
    rw (← print_onto-append (suc n) n [] rest)
      (rw (print_onto-read_digits (suc n) n rest (omega arith)) (read_digits-Stops n rest h))

print_onto-is_digit :
    (f n : ℕ) (rest : Bytes)
    → All (λ c. is_digit c ≡ true) rest
    → All (λ c. is_digit c ≡ true) (print_onto f n rest)
unfolding print_onto
print_onto-is_digit zero n rest h = h
print_onto-is_digit (suc f) n rest h =
    ground (arith, print_onto-is_digit f (n / 10) ((b'0' + n % 10) ∷ rest))

pub to_string-is_digit : (n : ℕ) → All (λ c. is_digit c ≡ true) (to_string n)
unfolding to_string
to_string-is_digit n = print_onto-is_digit (suc n) n [] tt

pub print_onto-cons :
    (f n : ℕ) (rest : Bytes)
    → n < f
    → (c : ℕ) × (cs : Bytes) × (print_onto f n rest ≡ c ∷ cs) × (is_digit c ≡ true)
unfolding print_onto
print_onto-cons zero n rest h = elim h [ ]
print_onto-cons (suc f) n rest h = elim (Bool-cases (ltb n 10)) [
  | inl short ↦ (b'0' + n, rest, rw short refl, ground arith)
  | inr long ↦ rw long (print_onto-cons f (n / 10) ((b'0' + n % 10) ∷ rest) (ground arith))
]

-- A printed number begins with a digit.
pub to_string-cons : (n : ℕ) → (c : ℕ) × (cs : Bytes) × (to_string n ≡ c ∷ cs) × (is_digit c ≡ true)
unfolding to_string
to_string-cons n = print_onto-cons (suc n) n [] (omega arith)
