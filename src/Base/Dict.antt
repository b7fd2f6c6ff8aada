-- ===== src/Base/Dict.antt =====
-- `std::map<std::string, V>` as an association list in key order. `std::unordered_map` is read as
-- the same dictionary: no code here depends on the order in which one is walked.
use mathlib.Core.Path.{◌≡◌, refl}
use mathlib.Core.Bool.{Bool, true}
use mathlib.Core.List.{List, [], ◌∷◌}
use mathlib.Core.Option.{Option, none, some}
use native.Mathlib.Omega.{arith}
use uaop.Base.Tests.{if◌then◌else◌}
use uaop.Base.Lists.{All}
use uaop.Base.Text.{Bytes, equal, less, equal_iff, equal_refl, less_trans, less_total, less_irrefl}

abbrev pub Dict {ℓ} : Type ℓ → Type ℓ
Dict V = List (Bytes × V)

module _ {ℓ} {V : Type ℓ} where
  unfoldable pub lookup : Bytes → Dict V → Option V
  lookup k [] = none
  lookup k ((j, v) ∷ m) = let rest = lookup k m in if equal k j then some v else rest

  -- `m[k] = v`.
  unfoldable pub insert : Bytes → V → Dict V → Dict V
  insert k v [] = (k, v) ∷ []
  insert k v ((j, w) ∷ m) =
      let rest = (j, w) ∷ insert k v m in
      if equal k j then (k, v) ∷ m else if less k j then (k, v) ∷ (j, w) ∷ m else rest

  -- Erases the entries that fail the test, as a sweep with `erase(it)` does.
  unfoldable pub keep_if : (V → Bool) → Dict V → Dict V
  keep_if p [] = []
  keep_if p ((j, w) ∷ m) = let rest = keep_if p m in if p w then (j, w) ∷ rest else rest

  -- Every key lies above `k`.
  abbrev pub Above : Bytes → Dict V → Type 0
  Above k [] = Unit
  Above k ((j, w) ∷ m) = (less k j ≡ true) × Above k m

  abbrev pub IsSorted : Dict V → Type 0
  IsSorted [] = Unit
  IsSorted ((j, w) ∷ m) = Above j m × IsSorted m

  pub lookup-insert :
      (j k : Bytes) (v : V) (m : Dict V)
      → lookup j (insert k v m) ≡ (if equal j k then some v else lookup j m)
  unfolding lookup insert
  lookup-insert j k v [] = refl
  lookup-insert j k v ((i, w) ∷ m) =
      ground (arith, equal_iff k i, equal_iff j k, equal_iff j i, lookup-insert j k v m)

  pub lookup-insert_self : (k : Bytes) (v : V) (m : Dict V) → lookup k (insert k v m) ≡ some v
  lookup-insert_self k v m = rw (lookup-insert, equal_refl)

  pub Above-trans : (a b : Bytes) (m : Dict V) → less a b ≡ true → Above b m → Above a m
  Above-trans a b [] p h = tt
  Above-trans a b ((j, w) ∷ m) p h = (less_trans a b j p h.0, Above-trans a b m p h.1)

  pub lookup-Above : (k : Bytes) (m : Dict V) → Above k m → lookup k m ≡ none
  unfolding lookup
  lookup-Above k [] h = refl
  lookup-Above k ((j, w) ∷ m) h = ground (arith, equal_iff k j, less_irrefl k, lookup-Above k m h.1)

  insert-Above :
      (j k : Bytes) (v : V) (m : Dict V) → less j k ≡ true → Above j m → Above j (insert k v m)
  unfolding insert
  insert-Above j k v [] p h = (p, tt)
  insert-Above j k v ((i, w) ∷ m) p h = ground (arith, insert-Above j k v m p h.1)

  pub insert-IsSorted : (k : Bytes) (v : V) (m : Dict V) → IsSorted m → IsSorted (insert k v m)
  unfolding insert
  insert-IsSorted k v [] h = (tt, tt)
  insert-IsSorted k v ((j, w) ∷ m) h = ground (
    arith,
    insert-IsSorted k v m h.1,
    less_total k j,
    Above-trans k j m,
    insert-Above j k v m,
    equal_iff k j,
  )

  keep_if-Above : (p : V → Bool) (k : Bytes) (m : Dict V) → Above k m → Above k (keep_if p m)
  unfolding keep_if
  keep_if-Above p k [] h = tt
  keep_if-Above p k ((j, w) ∷ m) h = ground (arith, keep_if-Above p k m h.1)

  pub keep_if-IsSorted : (p : V → Bool) (m : Dict V) → IsSorted m → IsSorted (keep_if p m)
  unfolding keep_if
  keep_if-IsSorted p [] h = tt
  keep_if-IsSorted p ((j, w) ∷ m) h =
      ground (arith, keep_if-Above p j m h.0, keep_if-IsSorted p m h.1)

  -- What a test leaves of an optional value.
  abbrev pub keep_some : (V → Bool) → Option V → Option V
  keep_some p none = none
  keep_some p (some v) = if p v then some v else none

  pub lookup-keep_if :
      (k : Bytes) (p : V → Bool) (m : Dict V)
      → IsSorted m
      → lookup k (keep_if p m) ≡ keep_some p (lookup k m)
  unfolding lookup keep_if
  lookup-keep_if k p [] h = refl
  lookup-keep_if k p ((j, w) ∷ m) h =
      ground (arith, equal_iff k j, lookup-keep_if k p m h.1, lookup-Above k m)

  pub All-keep_if : (p : V → Bool) (m : Dict V) → All (λ e. p e.1 ≡ true) (keep_if p m)
  unfolding keep_if
  All-keep_if p [] = tt
  All-keep_if p ((j, w) ∷ m) = ground (arith, All-keep_if p m)
