-- ===== src/Common/Sequence/History.antt =====
-- The numbers that calls for any keys, in any order, are given.
use uaop.Base.{ℕ, ◌+◌, ◌%◌, ◌≡◌, refl, ◌∙◌, ap, List, [], ◌∷◌, if◌then◌else◌, arith}
use uaop.Base.Dict.{lookup, lookup-insert}
use uaop.Base.Text.{Bytes, equal, equal_iff}
use uaop.Common.Sequence.{counter_or_zero, KeyedSequenceCounter, next_of}
use uaop.Base.Words.{u64_mod}

-- The counters after calls for these keys, the newest first.
unfoldable pub run : List Bytes → KeyedSequenceCounter
run [] = []
run (k ∷ h) = (next_of k (run h)).0

-- How often a key was asked for.
abbrev pub count : Bytes → List Bytes → ℕ
count key [] = 0
count key (k ∷ h) = (if equal key k then 1 else 0) + count key h

counter_of : Bytes → KeyedSequenceCounter → ℕ
counter_of key counters = counter_or_zero (lookup key counters)

counter_of-next_of :
    (key k : Bytes) (counters : KeyedSequenceCounter)
    → counter_of key (next_of k counters).0
      ≡ (if equal key k then (counter_of k counters + 1) % u64_mod else counter_of key counters)
unfolding counter_of next_of
counter_of-next_of key k counters =
    ap counter_or_zero
      (lookup-insert key k ((counter_or_zero (lookup k counters) + 1) % u64_mod) counters)
    ∙ ground arith

counter_of-run : (key : Bytes) (h : List Bytes) → counter_of key (run h) ≡ count key h % u64_mod
unfolding run
counter_of-run key [] = unfold counter_of lookup in refl
counter_of-run key (k ∷ h) =
    counter_of-next_of key k (run h)
    ∙ ground (arith, counter_of-run key h, counter_of-run k h, equal_iff key k)

-- The number that a key is given is one more than how often it was asked for before, modulo
-- 2 ^ 64; calls for other keys have no part in it.
pub next_of-count :
    (key : Bytes) (h : List Bytes) → (next_of key (run h)).1 ≡ (count key h + 1) % u64_mod
unfolding next_of counter_of
next_of-count key h = ap (λ (n : ℕ). (n + 1) % u64_mod) (counter_of-run key h) ∙ omega arith
