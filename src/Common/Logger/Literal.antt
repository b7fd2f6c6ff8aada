-- ===== src/Common/Logger/Literal.antt =====
-- The literals of RFC 8259 that are not strings: numbers, `true`, `false` and `null`.
use uaop.Base.{
  ℕ, zero, suc, ◌+◌, ◌/◌, ◌%◌, ◌<◌, ◌≡◌, refl, Bool, true, false, ◌||◌, [], ◌∷◌, Option, none, some,
  ◌==◌, if◌then◌else◌, arith, Option-cases, Bool-cases, inl, inr,
}
use uaop.Base.Decimal.{is_digit, print_onto, to_string}
use uaop.Base.Int.{ℤ, pos, negsuc, print_int}
use uaop.Base.Lists.{All}
use uaop.Base.Text.{Bytes, codes, equal}

-- How far a number has been read.
pub data Part : Type 0 where
  start minus zero_read whole point fraction exponent sign power : Part

abbrev is_exponent : ℕ → Bool
is_exponent c = c == b'e' || c == b'E'

abbrev first_digit : ℕ → Option Part
first_digit c = if c == b'0' then some zero_read else if is_digit c then some whole else none

abbrev next : Part → ℕ → Option Part
next start c = if c == b'-' then some minus else first_digit c
next minus c = first_digit c
next zero_read c = if c == b'.' then some point else if is_exponent c then some exponent else none
next whole c =
    if is_digit c
    then some whole
    else if c == b'.'
    then some point
    else if is_exponent c
    then some exponent
    else none
next point c = if is_digit c then some fraction else none
next fraction c =
    if is_digit c then some fraction else if is_exponent c then some exponent else none
next exponent c =
    if c == b'+' || c == b'-' then some sign else if is_digit c then some power else none
next sign c = if is_digit c then some power else none
next power c = if is_digit c then some power else none

abbrev is_complete : Part → Bool
is_complete zero_read = true
is_complete whole = true
is_complete fraction = true
is_complete power = true
is_complete part = false

unfoldable pub number_from : Part → Bytes → Bool
number_from part [] = is_complete part
number_from part (c ∷ s) = elim (next part c) [ none ↦ false | some part' ↦ number_from part' s ]

abbrev pub is_number : Bytes → Bool
is_number s = number_from start s

unfoldable pub is_literal : Bytes → Bool
is_literal s =
    is_number s || (equal s (codes "true") || (equal s (codes "false") || equal s (codes "null")))

pub is_literal-nil : is_literal [] ≡ false
unfolding is_literal number_from equal
is_literal-nil = refl

-- A byte that may stand behind a value, or start a string.
abbrev pub ends_bare : ℕ → Bool
ends_bare c = c == b',' || c == b'}' || c == b'"'

next-bare : (part : Part) (c : ℕ) → ends_bare c ≡ true → next part c ≡ none
next-bare start c h = ground (arith, h)
next-bare minus c h = ground (arith, h)
next-bare zero_read c h = ground (arith, h)
next-bare whole c h = ground (arith, h)
next-bare point c h = ground (arith, h)
next-bare fraction c h = ground (arith, h)
next-bare exponent c h = ground (arith, h)
next-bare sign c h = ground (arith, h)
next-bare power c h = ground (arith, h)

pub number_from-bare :
    (part : Part) (s : Bytes) → number_from part s ≡ true → All (λ c. ends_bare c ≡ false) s
unfolding number_from
number_from-bare part [] h = tt
number_from-bare part (c ∷ s) h = elim (Bool-cases (ends_bare c)) [
  | inl ends ↦ let clash : false ≡ true = rw (next-bare part c ends, number_from) at h in cc
  | inr goes_on ↦ elim (Option-cases (next part c)) [
    | inl e ↦ let clash : false ≡ true = rw (e, number_from) at h in cc
    | inr (part', e) ↦ (goes_on, number_from-bare part' s (rw (e, number_from) at h))
  ]
]

number_from-digits : (s : Bytes) → All (λ c. is_digit c ≡ true) s → number_from whole s ≡ true
unfolding number_from
number_from-digits [] h = refl
number_from-digits (c ∷ s) h = rw (h.0, number_from) (number_from-digits s h.1)

-- The digits of a number above 0 start with none that is 0.
number_from-print_onto :
    (f n : ℕ) (rest : Bytes)
    → n < f
    → 0 < n
    → All (λ c. is_digit c ≡ true) rest
    → (number_from start (print_onto f n rest) ≡ true)
      × (number_from minus (print_onto f n rest) ≡ true)
unfolding print_onto number_from
number_from-print_onto zero n rest h k d = elim h [ ]
number_from-print_onto (suc f) n rest h k d =
    ground
      (arith, number_from-print_onto f (n / 10) ((b'0' + n % 10) ∷ rest), number_from-digits rest d)

pub is_number-to_string : (n : ℕ) → is_number (to_string n) ≡ true
unfolding to_string
is_number-to_string zero = unfold print_onto number_from in refl
is_number-to_string (suc n) =
    (number_from-print_onto (suc (suc n)) (suc n) [] (omega arith) (omega arith) tt).0

pub is_number-print_int : (z : ℤ) → is_number (print_int z) ≡ true
unfolding print_int number_from to_string
is_number-print_int (pos n) = is_number-to_string n
is_number-print_int (negsuc n) =
    (number_from-print_onto (suc (suc n)) (suc n) [] (omega arith) (omega arith) tt).1
