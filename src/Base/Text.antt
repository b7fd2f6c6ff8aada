-- ===== src/Base/Text.antt =====
-- Byte strings (`std::string`): a list of numbers below 256, with equality and the order that
-- `std::map` uses (`char_traits<char>` compares bytes as unsigned).
use Prim.Native.Char.{code}
use Prim.Native.Nat.{ℕ}
use Prim.Native.String.{String}
use mathlib.Core.Path.{◌≡◌, refl}
use mathlib.Core.Logic.{◌↔◌}
use mathlib.Core.Bool.{Bool, true, false, ◌&&◌}
use mathlib.Core.List.{List, [], ◌∷◌}
use mathlib.Core.Option.{Option, none, some}
use native.Mathlib.Omega.{arith}
use uaop.Base.Tests.{ltb, ◌==◌, if◌then◌else◌}

abbrev pub Bytes : Type 0
Bytes = List ℕ

-- The bytes of an ASCII literal.
abbrev pub codes : String → Bytes
codes String.[] = []
codes (String.◌∷◌ c s) = code c ∷ codes s

-- `operator==` on `std::string`.
unfoldable pub equal : Bytes → Bytes → Bool
equal [] [] = true
equal [] (d ∷ t) = false
equal (c ∷ s) [] = false
equal (c ∷ s) (d ∷ t) = c == d && equal s t

-- `operator<` on `std::string`.
unfoldable pub less : Bytes → Bytes → Bool
less [] [] = false
less [] (y ∷ ys) = true
less (x ∷ xs) [] = false
less (x ∷ xs) (y ∷ ys) = let rest = less xs ys in if x == y then rest else ltb x y

abbrev pub is_empty : Bytes → Bool
is_empty [] = true
is_empty (x ∷ xs) = false

-- What follows a prefix.
abbrev pub strip_prefix : Bytes → Bytes → Option Bytes
strip_prefix [] s = some s
strip_prefix (c ∷ p) [] = none
strip_prefix (c ∷ p) (d ∷ s) = let rest = strip_prefix p s in if c == d then rest else none

pub equal_iff : (s t : Bytes) → (equal s t ≡ true) ↔ (s ≡ t)
unfolding equal
equal_iff [] [] = ground arith
equal_iff [] (d ∷ t) = ground arith
equal_iff (c ∷ s) [] = ground arith
equal_iff (c ∷ s) (d ∷ t) = ground (arith, equal_iff s t)

pub equal_refl : (a : Bytes) → equal a a ≡ true
equal_refl a = (equal_iff a a).1 refl

pub less_irrefl : (a : Bytes) → less a a ≡ false
unfolding less
less_irrefl [] = refl
less_irrefl (x ∷ a) = ground (arith, less_irrefl a)

pub less_trans : (a b c : Bytes) → less a b ≡ true → less b c ≡ true → less a c ≡ true
unfolding less
less_trans (x ∷ a) (y ∷ b) (z ∷ c) p q = ground (arith, less_trans a b c)
less_trans _ _ _ p q = ground arith

-- A key that is neither equal nor smaller is greater.
pub less_total : (a b : Bytes) → equal a b ≡ false → less a b ≡ false → less b a ≡ true
unfolding less equal
less_total (x ∷ a) (y ∷ b) p q = ground (arith, less_total a b)
less_total _ _ p q = ground arith
