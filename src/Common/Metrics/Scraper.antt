-- ===== src/Common/Metrics/Scraper.antt =====
-- A scraper's reader of the exposition: it skips comments and splits each line at its last space.
use mathlib.Core.List.{append_assoc, append-nil}
use uaop.Base.{
  ℕ, ◌≡◌, refl, ◌∙◌, Bool, true, false, List, [], ◌∷◌, ◌++◌, Option, some, none, ◌==◌,
  if◌then◌else◌,
}
use uaop.Base.Lists.{All, All-append}
use uaop.Base.Text.{Bytes}
use uaop.Common.Json.{then_read}
use uaop.Common.Metrics.{Labels, key, render_labels}

-- The lines that end with a line feed, with the part of the first that was read.
unfoldable pub lines_from : Bytes → Bytes → List Bytes
lines_from part [] = []
lines_from part (c ∷ s) =
    let here = lines_from [] s in
    let on = lines_from (part ++ c ∷ []) s in if c == b'\n' then part ∷ here else on

abbrev pub at_space : ℕ → Bytes → Option (Bytes × Bytes) → Option (Bytes × Bytes)
at_space c s (some (a, b)) = some (c ∷ a, b)
at_space c s none = if c == b' ' then some ([], s) else none

-- What stands before and behind the last space.
unfoldable pub last_space : Bytes → Option (Bytes × Bytes)
last_space [] = none
last_space (c ∷ s) = at_space c s (last_space s)

abbrev pub Samples : Type 0
Samples = List (Bytes × Bytes)

abbrev pub is_comment : Bytes → Bool
is_comment [] = false
is_comment (c ∷ s) = c == b'#'

unfoldable pub read_samples : List Bytes → Option Samples
read_samples [] = some []
read_samples (l ∷ ls) =
    let rest = read_samples ls in
    if is_comment l
    then rest
    else then_read (last_space l) (λ p. then_read rest (λ ps. some (p ∷ ps)))

unfoldable pub read_exposition : Bytes → Option Samples
read_exposition s = read_samples (lines_from [] s)

-- The text holds none of this byte.
abbrev pub Lacks : ℕ → Bytes → Type 0
Lacks b = All (λ c. (c == b) ≡ false)

lines_from-append :
    (part l rest : Bytes)
    → Lacks b'\n' l
    → lines_from part (l ++ b'\n' ∷ rest) ≡ (part ++ l) ∷ lines_from [] rest
unfolding lines_from
lines_from-append part [] rest h = rw (append-nil part) refl
lines_from-append part (c ∷ l) rest h =
    rw (h.0)
      (lines_from-append (part ++ c ∷ []) l rest h.1 ∙ rw (append_assoc part (c ∷ []) l) refl)

last_space-none : (b : Bytes) → Lacks b' ' b → last_space b ≡ none
unfolding last_space
last_space-none [] h = refl
last_space-none (c ∷ b) h = rw (last_space-none b h.1, h.0) refl

last_space-append : (a b : Bytes) → Lacks b' ' b → last_space (a ++ b' ' ∷ b) ≡ some (a, b)
unfolding last_space
last_space-append [] b h = rw (last_space-none b h) refl
last_space-append (c ∷ a) b h = rw (last_space-append a b h) refl

pub Lacks-append : (b : ℕ) (s t : Bytes) → Lacks b s → Lacks b t → Lacks b (s ++ t)
Lacks-append b s t = All-append (λ c. (c == b) ≡ false) s t

key-no_comment :
    (name : Bytes) (labels : Labels) (rest : Bytes)
    → is_comment name ≡ false
    → is_comment (key name labels ++ b' ' ∷ rest) ≡ false
unfolding key render_labels
key-no_comment [] [] rest h = refl
key-no_comment [] (p ∷ labels) rest h = refl
key-no_comment (c ∷ name) labels rest h = h

-- What reading does with one more line.
pub read_samples-comment :
    (l rest : Bytes)
    → Lacks b'\n' l
    → is_comment l ≡ true
    → read_exposition (l ++ b'\n' ∷ rest) ≡ read_exposition rest
unfolding read_exposition read_samples
read_samples-comment l rest h c = rw (lines_from-append [] l rest h, c) refl

pub read_samples-sample :
    (name : Bytes) (labels : Labels) (value rest : Bytes)
    → is_comment name ≡ false
    → Lacks b'\n' (key name labels)
    → Lacks b'\n' value
    → Lacks b' ' value
    → read_exposition ((key name labels ++ b' ' ∷ value) ++ b'\n' ∷ rest)
      ≡ then_read (read_exposition rest) (λ ps. some ((key name labels, value) ∷ ps))
unfolding read_exposition read_samples
read_samples-sample name labels value rest h series one_line no_space =
    rw
      (lines_from-append [] (key name labels ++ b' ' ∷ value) rest
        (Lacks-append b'\n' (key name labels) _ series (refl, one_line)))
      (rw (key-no_comment name labels value h, last_space-append (key name labels) value no_space)
        refl)
