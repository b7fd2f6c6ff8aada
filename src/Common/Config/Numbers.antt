-- ===== src/Common/Config/Numbers.antt =====
-- Integers in the configuration: `get_int` reads back what is printed, within `int64_t`.
use mathlib.Core.List.{append-nil}
use uaop.Base.{
  ℕ, suc, ◌-◌, ◌^◌, ◌≡◌, sym, ap, ◌∙◌, Bool, true, false, [], ◌∷◌, none, some, leb, ltb, ◌==◌,
  if◌then◌else◌, arith,
}
use uaop.Base.Decimal.{is_digit, to_string, read_digits, read_digits-to_string, to_string-cons}
use uaop.Base.Dict.{lookup-insert_self}
use uaop.Base.Int.{print_int, ℤ, pos, negsuc, neg}
use uaop.Base.Text.{Bytes}
use uaop.Common.Config.Store.{ConfigStore, set, get, get_int, from_chars, from_digits, limited}

-- The integer is an `int64_t`.
abbrev pub in_range : ℤ → Bool
in_range (pos n) = ltb n (2 ^ 63)
in_range (negsuc n) = ltb n (2 ^ 63)

from_digits-to_string :
    (bound : ℕ) (sign : ℕ → ℤ) (n : ℕ)
    → from_digits bound sign (to_string n) ≡ (if leb n bound then some (sign n, []) else none)
unfolding from_digits
from_digits-to_string bound sign n =
    let (c, cs, e, d) = to_string-cons n in
    rw (e, from_digits)
      (rw d (
        ap (limited bound sign) (
          ap (read_digits 0) (sym e ∙ sym (append-nil (to_string n)))
          ∙ read_digits-to_string n [] tt)))

digit_not_minus : (c : ℕ) → is_digit c ≡ true → (c == b'-') ≡ false
digit_not_minus c d = ground arith

from_chars-digit :
    (s : Bytes) (c : ℕ) (cs : Bytes)
    → s ≡ c ∷ cs
    → is_digit c ≡ true
    → from_chars s ≡ from_digits (2 ^ 63 - 1) pos s
unfolding from_chars
from_chars-digit s c cs e d = rw e (rw (digit_not_minus c d))

from_chars-print_int :
    (z : ℤ) → from_chars (print_int z) ≡ (if in_range z then some (z, []) else none)
unfolding print_int
from_chars-print_int (pos n) =
    let (c, cs, e, d) = to_string-cons n in
    from_chars-digit (to_string n) c cs e d
    ∙ from_digits-to_string (2 ^ 63 - 1) pos n
    ∙ ground arith
from_chars-print_int (negsuc n) =
    unfold from_chars in from_digits-to_string (2 ^ 63) neg (suc n) ∙ ground arith

-- An integer that is set in decimal notation is read back by `get_int` if it fits `int64_t`; if
-- it does not, `get_int` returns nothing.
pub get_int-set :
    (k : Bytes) (z : ℤ) (values : ConfigStore)
    → get_int k (set k (print_int z) values) ≡ (if in_range z then some z else none)
unfolding get_int get set
get_int-set k z values =
    rw (lookup-insert_self k (print_int z) values) (rw (from_chars-print_int z) (ground arith))
