-- ===== src/Common/Metrics/Values.antt =====
-- What counters hold, and what their series are called.
use mathlib.Core.List.{append_assoc}
use uaop.Base.{
  ℕ, zero, suc, ◌+◌, ◌%◌, ◌<◌, ◌≡◌, refl, ◌∙◌, ap, List, [], ◌∷◌, ◌++◌, Option, none, some, arith,
  if◌then◌else◌, ◌==◌,
}
use uaop.Base.Dict.{lookup}
use uaop.Base.Lists.{modify, get_elem?, get_elem?-append}
use uaop.Base.Text.{Bytes, codes}
use uaop.Base.Words.{u64_mod}
use uaop.Common.Metrics.{
  Labels, MetricRegistry, empty_registry, key, render_labels, render_pairs, counter, gauge,
  increment, set_gauge, gauge_add, add_counter, add_gauge,
}
use uaop.Common.Metrics.Calls.{
  Call, get_counter, get_gauge, count, set_to, add_to, perform, run, counter_same_key,
}

-- What the calls have added to a counter.
abbrev pub counted : {D : Type 0} → ℕ → List (Call D) → ℕ
counted h [] = 0
counted h (get_counter name help labels ∷ cs) = counted h cs
counted h (get_gauge name help labels ∷ cs) = counted h cs
counted h (count i delta ∷ cs) = (if i == h then delta else 0) + counted h cs
counted h (set_to i v ∷ cs) = counted h cs
counted h (add_to i v ∷ cs) = counted h cs

get_elem?-modify :
    (i h : ℕ) (f : ℕ → ℕ) (xs : List ℕ) (v : ℕ)
    → get_elem? xs h ≡ some v
    → get_elem? (modify i f xs) h ≡ some (if i == h then f v else v)
get_elem?-modify i h f [] v e = cc
get_elem?-modify zero zero f (x ∷ xs) v e = (let same : x ≡ v = cc in rw same refl)
get_elem?-modify zero (suc h) f (x ∷ xs) v e = ground arith
get_elem?-modify (suc i) zero f (x ∷ xs) v e = ground arith
get_elem?-modify (suc i) (suc h) f (x ∷ xs) v e = ground (arith, get_elem?-modify i h f xs v e)

-- A registration leaves the counters there are.
add_counter-get_elem? :
    {D : Type 0} (o : Option ℕ) (name help : Bytes) (labels : Labels) (r : MetricRegistry D)
    (h v : ℕ)
    → get_elem? r.counters h ≡ some v
    → get_elem? (add_counter o name help labels r).0.counters h ≡ some v
unfolding add_counter
add_counter-get_elem? (some i) name help labels r h v e = e
add_counter-get_elem? none name help labels r h v e = get_elem?-append r.counters (0 ∷ []) h v e

add_gauge-counters :
    {D : Type 0} (z : D) (o : Option ℕ) (name help : Bytes) (labels : Labels) (r : MetricRegistry D)
    → (add_gauge z o name help labels r).0.counters ≡ r.counters
unfolding add_gauge
add_gauge-counters z (some i) name help labels r = refl
add_gauge-counters z none name help labels r = refl

module _ {D : Type 0} (zero_double : D) (plus : D → D → D) where
  perform-counters :
      (c : Call D) (r : MetricRegistry D) (h v : ℕ)
      → v < u64_mod
      → get_elem? r.counters h ≡ some v
      → get_elem? (perform zero_double plus c r).counters h
        ≡ some ((v + counted h (c ∷ [])) % u64_mod)
  unfolding perform
  perform-counters (get_counter name help labels) r h v b e =
      unfold counter in
      add_counter-get_elem? (lookup (key name labels) r.index) name help labels r h v e
      ∙ ap (λ n. some n) (omega arith)
  perform-counters (get_gauge name help labels) r h v b e =
      unfold gauge in
      ap (λ cs. get_elem? cs h)
        (add_gauge-counters zero_double (lookup (key name labels) r.index) name help labels r)
      ∙ e
      ∙ ap (λ n. some n) (omega arith)
  perform-counters (count i delta) r h v b e =
      unfold increment in
      get_elem?-modify i h (λ n. (n + delta) % u64_mod) r.counters v e
      ∙ ap (λ n. some n) (ground arith)
  perform-counters (set_to i x) r h v b e = unfold set_gauge in e ∙ ap (λ n. some n) (omega arith)
  perform-counters (add_to i x) r h v b e = unfold gauge_add in e ∙ ap (λ n. some n) (omega arith)

  counted-cons :
      (h : ℕ) (c : Call D) (cs : List (Call D))
      → counted h (c ∷ cs) ≡ counted h (c ∷ []) + counted h cs
  counted-cons h (get_counter name help labels) cs = omega arith
  counted-cons h (get_gauge name help labels) cs = omega arith
  counted-cons h (count i delta) cs = omega arith
  counted-cons h (set_to i v) cs = omega arith
  counted-cons h (add_to i v) cs = omega arith

  -- After any calls a counter holds its value before plus all the increments through its handle,
  -- modulo 2^64, whatever other series were registered or updated in between.
  pub counters-run :
      (cs : List (Call D)) (r : MetricRegistry D) (h v : ℕ)
      → v < u64_mod
      → get_elem? r.counters h ≡ some v
      → get_elem? (run zero_double plus cs r).counters h ≡ some ((v + counted h cs) % u64_mod)
  unfolding run
  counters-run [] r h v b e = e ∙ ap (λ n. some n) (omega arith)
  counters-run (c ∷ cs) r h v b e =
      counters-run cs (perform zero_double plus c r) h ((v + counted h (c ∷ [])) % u64_mod)
        (omega arith) (perform-counters c r h v b e)
      ∙ ap (λ n. some n) (omega (arith, counted-cons h c cs))

key_injected :
    (name a v b w : Bytes)
    → key name ((a, v) ∷ (b, w) ∷ [])
      ≡ key name ((a, v ++ (codes "\"," ++ (b ++ (codes "=\"" ++ w)))) ∷ [])
unfolding key render_labels render_pairs
key_injected name a v b w = simp append_assoc

module _ {D : Type 0} (zero_double : D) (plus : D → D → D) where
  -- Label values are not escaped: a series with two labels, and one with a single label whose
  -- value holds the text between the two, share one counter, whatever the names and values.
  pub counter_collision :
      (before between : List (Call D)) (name help a v b w : Bytes)
      → let (r, handle) =
          counter name help ((a, v) ∷ (b, w) ∷ []) (run zero_double plus before empty_registry) in
        counter name help
          ((a, v ++ (codes "\"," ++ (b ++ (codes "=\"" ++ w)))) ∷ [])
          (run zero_double plus between r)
        ≡ (run zero_double plus between r, handle)
  counter_collision before between name help a v b w =
      counter_same_key zero_double plus before between name help name help ((a, v) ∷ (b, w) ∷ [])
        ((a, v ++ (codes "\"," ++ (b ++ (codes "=\"" ++ w)))) ∷ []) (key_injected name a v b w)
