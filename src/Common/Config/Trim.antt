-- ===== src/Common/Config/Trim.antt =====
-- What `trim` does: it takes the white space off both ends, and nothing else.
use uaop.Base.{
  ℕ, ◌≡◌, refl, true, false, ◌&&◌, [], ◌∷◌, ◌++◌, if◌then◌else◌, arith, Bool-cases, inl, inr,
}
use uaop.Base.Lists.{All}
use uaop.Base.Text.{Bytes, is_empty}
use uaop.Common.Config.Line.{is_space, trim_start, trim_end, trim}

abbrev pub AllSpace : Bytes → Type 0
AllSpace = All (λ c. is_space c ≡ true)

-- The text does not begin with white space.
abbrev pub Starts : Bytes → Type 0
Starts [] = Unit
Starts (c ∷ cs) = is_space c ≡ false

-- The text does not end in white space.
abbrev pub Ends : Bytes → Type 0
Ends [] = Unit
Ends (c ∷ []) = is_space c ≡ false
Ends (c ∷ d ∷ cs) = Ends (d ∷ cs)

pub record IsTrimmed (s : Bytes) : Type 0 where
  pub starts : Starts s
  pub ends : Ends s

pub trim_start-append : (w s : Bytes) → AllSpace w → trim_start (w ++ s) ≡ trim_start s
unfolding trim_start
trim_start-append [] s h = refl
trim_start-append (c ∷ w) s h = rw h.0 (trim_start-append w s h.1)

pub trim_start-Starts : (s : Bytes) → Starts s → trim_start s ≡ s
unfolding trim_start
trim_start-Starts [] h = refl
trim_start-Starts (c ∷ s) h = rw h

pub trim_start-AllSpace : (w : Bytes) → AllSpace w → trim_start w ≡ []
unfolding trim_start
trim_start-AllSpace [] h = refl
trim_start-AllSpace (c ∷ w) h = rw h.0 (trim_start-AllSpace w h.1)

pub trim_end-AllSpace : (w : Bytes) → AllSpace w → trim_end w ≡ []
unfolding trim_end
trim_end-AllSpace [] h = refl
trim_end-AllSpace (c ∷ w) h = ground (arith, trim_end-AllSpace w h.1)

pub trim_end-append : (s w : Bytes) → AllSpace w → trim_end (s ++ w) ≡ trim_end s
unfolding trim_end
trim_end-append [] w h = trim_end-AllSpace w h
trim_end-append (c ∷ s) w h = rw (trim_end-append s w h)

pub trim_end-Ends : (s : Bytes) → Ends s → trim_end s ≡ s
unfolding trim_end
trim_end-Ends [] h = refl
trim_end-Ends (c ∷ []) h = rw h
trim_end-Ends (c ∷ d ∷ s) h = rw (trim_end-Ends (d ∷ s) h) (ground arith)

-- A byte that is no white space stops the trimming.
pub trim_end-stop :
    (p : Bytes) (c : ℕ) (x : Bytes)
    → is_space c ≡ false
    → trim_end (p ++ c ∷ x) ≡ p ++ c ∷ trim_end x
unfolding trim_end
trim_end-stop [] c x h = rw h
trim_end-stop (b ∷ []) c x h = ground (arith, trim_end-stop [] c x h)
trim_end-stop (b ∷ a ∷ p) c x h = ground (arith, trim_end-stop (a ∷ p) c x h)

pub trim_start-is_Starts : (s : Bytes) → Starts (trim_start s)
unfolding trim_start
trim_start-is_Starts [] = tt
trim_start-is_Starts (c ∷ s) = ground (arith, trim_start-is_Starts s)

Ends-step : (c : ℕ) (r : Bytes) → Ends r → Ends (if is_space c && is_empty r then [] else c ∷ r)
Ends-step c [] h = elim (Bool-cases (is_space c)) [ inl p ↦ rw p tt | inr p ↦ rw p p ]
Ends-step c (d ∷ r) h = elim (Bool-cases (is_space c)) [ inl p ↦ rw p h | inr p ↦ rw p h ]

pub trim_end-is_Ends : (s : Bytes) → Ends (trim_end s)
unfolding trim_end
trim_end-is_Ends [] = tt
trim_end-is_Ends (c ∷ s) = Ends-step c (trim_end s) (trim_end-is_Ends s)

pub trim_end-keeps_Starts : (s : Bytes) → Starts s → Starts (trim_end s)
unfolding trim_end
trim_end-keeps_Starts [] h = tt
trim_end-keeps_Starts (c ∷ s) h = ground arith

-- Whatever `trim` returns neither begins nor ends with white space.
pub trim-IsTrimmed : (s : Bytes) → IsTrimmed (trim s)
unfolding trim
trim-IsTrimmed s = record {
  starts = trim_end-keeps_Starts (trim_start s) (trim_start-is_Starts s);
  ends = trim_end-is_Ends (trim_start s);
}
