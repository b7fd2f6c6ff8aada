-- ===== src/Base/Lists.antt =====
-- Lists measured by native numbers, and predicates on all their members.
use Prim.Native.Nat.{ℕ, zero, suc, ◌+◌}
use mathlib.Core.Path.{◌≡◌, refl, ap, sym}
use mathlib.Core.Bool.{Bool}
use mathlib.Core.List.{List, [], ◌∷◌, ◌++◌, map, append_assoc}
use mathlib.Core.Option.{Option, none, some}
use native.Mathlib.Omega.{arith}
use uaop.Base.Tests.{if◌then◌else◌}

module _ {ℓ} {A : Type ℓ} where
  abbrev pub length : List A → ℕ
  length [] = 0
  length (x ∷ xs) = suc (length xs)

  abbrev pub get_elem? : List A → ℕ → Option A
  get_elem? [] i = none
  get_elem? (x ∷ xs) zero = some x
  get_elem? (x ∷ xs) (suc i) = get_elem? xs i

  -- Changes the member at a position, if there is one.
  abbrev pub modify : ℕ → (A → A) → List A → List A
  modify i f [] = []
  modify zero f (x ∷ xs) = f x ∷ xs
  modify (suc i) f (x ∷ xs) = x ∷ modify i f xs

  -- The members that pass a Boolean test, in their order.
  abbrev pub select : (A → Bool) → List A → List A
  select p [] = []
  select p (x ∷ xs) = let rest = select p xs in if p x then x ∷ rest else rest

  pub length-append : (xs ys : List A) → length (xs ++ ys) ≡ length xs + length ys
  length-append [] ys = omega arith
  length-append (x ∷ xs) ys = omega (arith, length-append xs ys)

  pub length-modify : (i : ℕ) (f : A → A) (xs : List A) → length (modify i f xs) ≡ length xs
  length-modify i f [] = refl
  length-modify zero f (x ∷ xs) = refl
  length-modify (suc i) f (x ∷ xs) = ap suc (length-modify i f xs)

  pub get_elem?-append :
      (xs ys : List A) (i : ℕ) (a : A) → get_elem? xs i ≡ some a → get_elem? (xs ++ ys) i ≡ some a
  get_elem?-append [] ys i a e = cc
  get_elem?-append (x ∷ xs) ys zero a e = e
  get_elem?-append (x ∷ xs) ys (suc i) a e = get_elem?-append xs ys i a e

  pub get_elem?-append_length :
      (xs : List A) (y : A) → get_elem? (xs ++ y ∷ []) (length xs) ≡ some y
  get_elem?-append_length [] y = refl
  get_elem?-append_length (x ∷ xs) y = get_elem?-append_length xs y

module _ {ℓ κ} {A : Type ℓ} {B : Type κ} where
  -- What a function makes of each member, one after the other.
  abbrev pub flat_map : (A → List B) → List A → List B
  flat_map f [] = []
  flat_map f (x ∷ xs) = f x ++ flat_map f xs

  pub flat_map-append :
      (f : A → List B) (xs ys : List A) → flat_map f (xs ++ ys) ≡ flat_map f xs ++ flat_map f ys
  flat_map-append f [] ys = refl
  flat_map-append f (x ∷ xs) ys =
      rw (flat_map-append f xs ys) (sym (append_assoc (f x) (flat_map f xs) (flat_map f ys)))

  pub flat_map-singleton : (g : A → B) (xs : List A) → flat_map (λ x. g x ∷ []) xs ≡ map g xs
  flat_map-singleton g [] = refl
  flat_map-singleton g (x ∷ xs) = ap (λ rest. g x ∷ rest) (flat_map-singleton g xs)

-- A predicate on all members computes to a tuple, which the tactics read and build.
abbrev pub All {ℓ κ} : {A : Type ℓ} → (A → Type κ) → List A → Type κ
All P [] = Unit
All P (x ∷ xs) = P x × All P xs

pub All-append {ℓ κ} :
    {A : Type ℓ} (Q : A → Type κ) (front rest : List A)
    → All Q front
    → All Q rest
    → All Q (front ++ rest)
All-append Q [] rest p q = q
All-append Q (a ∷ front) rest p q = (p.0, All-append Q front rest p.1 q)
