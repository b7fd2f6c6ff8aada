-- ===== src/Base/Bits.antt =====
-- Masks: `&` with a number of ones keeps the low binary digits.
use Prim.Native.Nat.{
  ℕ, zero, suc, ◌+◌, ◌*◌, ◌/◌, ◌%◌, ◌^◌, ◌≤◌, ◌<◌, min, bit_and, bit_or, digits, bit_and-bitwise,
}
use mathlib.Core.Path.{◌≡◌, refl, ◌∙◌}
use mathlib.Core.Bool.{Bool, true, ◌&&◌}
use native.Mathlib.Nat.{pow-suc, one-le-pow}
use native.Mathlib.Omega.{arith}
use uaop.Base.Tests.{◌==◌, ==_iff}

-- The number with k binary digits that are all one.
abbrev pub ones : ℕ → ℕ
ones zero = 0
ones (suc k) = ones k * 2 + 1

-- The last k binary digits.
abbrev low : ℕ → ℕ → ℕ
low zero a = 0
low (suc k) a = low k (a / 2) * 2 + a % 2

low-zero : (k : ℕ) → low k 0 ≡ 0
low-zero zero = refl
low-zero (suc k) = omega (arith, low-zero k)

digits-ones : (n k a : ℕ) → a ≤ n → digits (λ b. zero) min n a (ones k) ≡ low k a
digits-ones zero k zero h = omega (arith, low-zero k)
digits-ones zero k (suc a) h = absurd (omega arith)
digits-ones (suc n) k zero h = omega (arith, low-zero k)
digits-ones (suc n) zero (suc a) h = omega (arith, digits-ones n zero (suc a / 2) (omega arith))
digits-ones (suc n) (suc k) (suc a) h =
    let halved : (ones k * 2 + 1) / 2 ≡ ones k = omega arith in
    rw halved (omega (arith, digits-ones n k (suc a / 2) (omega arith)))

bit_and-low : (k a : ℕ) → bit_and a (ones k) ≡ low k a
bit_and-low k a = bit_and-bitwise a (ones k) ∙ digits-ones a k a (omega arith)

-- The remainder by twice a number, from the last digit and the others.
mod_twice : (a m : ℕ) → 1 ≤ m → a % (m * 2) ≡ a / 2 % m * 2 + a % 2
mod_twice a m h = grind arith

low-mod : (k a : ℕ) → low k a ≡ a % 2 ^ k
low-mod zero a = omega arith
low-mod (suc k) a =
    rw (pow-suc 2 k)
      (omega (arith, low-mod k (a / 2), mod_twice a (2 ^ k) (one-le-pow k 2 (omega arith))))

pub bit_and-ones : (k a : ℕ) → bit_and a (ones k) ≡ a % 2 ^ k
bit_and-ones k a = bit_and-low k a ∙ low-mod k a

-- A number below a power of two fills the free digits of one of the two.
all_below : ℕ → (ℕ → Bool) → Bool
all_below zero p = true
all_below (suc n) p = p n && all_below n p

all_below-lt : (n : ℕ) (p : ℕ → Bool) (x : ℕ) → all_below n p ≡ true → x < n → p x ≡ true
unfolding all_below
all_below-lt zero p x h lt = absurd (omega arith)
all_below-lt (suc n) p x h lt = ground (arith, all_below-lt n p x)

version_table : all_below 16 (λ x. bit_or 0x70 x == 0x70 + x) ≡ true
unfolding all_below
version_table = refl

variant_table : all_below 64 (λ x. bit_or 0x80 x == 0x80 + x) ≡ true
unfolding all_below
variant_table = refl

pub bit_or_version : (x : ℕ) → x < 16 → bit_or 0x70 x ≡ 0x70 + x
bit_or_version x h = (==_iff _ (0x70 + x)).0 (all_below-lt 16 _ x version_table h)

pub bit_or_variant : (x : ℕ) → x < 64 → bit_or 0x80 x ≡ 0x80 + x
bit_or_variant x h = (==_iff _ (0x80 + x)).0 (all_below-lt 64 _ x variant_table h)
