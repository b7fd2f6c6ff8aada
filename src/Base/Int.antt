-- ===== src/Base/Int.antt =====
-- Signed integers over the native numbers, under the library's names.
use Prim.Native.Nat.{ℕ, zero, suc, ◌+◌, ◌-◌}
use mathlib.Core.List.{◌∷◌}
use mathlib.Core.Bool.{Bool, true, false}
use uaop.Base.Tests.{ltb, leb, ◌==◌, if◌then◌else◌}
use uaop.Base.Decimal.{to_string}
use uaop.Base.Text.{Bytes}

-- `negsuc n` is -(n + 1).
pub data ℤ : Type 0 where
  pos : ℕ → ℤ
  negsuc : ℕ → ℤ

-- -n.
abbrev pub neg : ℕ → ℤ
neg zero = pos 0
neg (suc n) = negsuc n

-- `operator<<` on `int64_t`.
unfoldable pub print_int : ℤ → Bytes
print_int (pos n) = to_string n
print_int (negsuc n) = b'-' ∷ to_string (suc n)

-- a - b of two natural numbers.
abbrev pub diff : ℕ → ℕ → ℤ
diff a b = if leb b a then pos (a - b) else negsuc (b - a - 1)

-- a - b.
abbrev pub minus : ℤ → ℤ → ℤ
minus (pos a) (pos b) = diff a b
minus (pos a) (negsuc b) = pos (a + b + 1)
minus (negsuc a) (pos b) = negsuc (a + b)
minus (negsuc a) (negsuc b) = diff b a

-- `<` and `==` on signed integers.
abbrev pub less_int : ℤ → ℤ → Bool
less_int (pos a) (pos b) = ltb a b
less_int (pos a) (negsuc b) = false
less_int (negsuc a) (pos b) = true
less_int (negsuc a) (negsuc b) = ltb b a

abbrev pub equal_int : ℤ → ℤ → Bool
equal_int (pos a) (pos b) = a == b
equal_int (pos a) (negsuc b) = false
equal_int (negsuc a) (pos b) = false
equal_int (negsuc a) (negsuc b) = a == b
