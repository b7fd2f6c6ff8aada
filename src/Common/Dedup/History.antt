-- ===== src/Common/Dedup/History.antt =====
-- The set against its history: which deliveries it has been asked about. A history lists the
-- newest call first.
use uaop.Base.{
  ℕ, ◌+◌, ◌≤◌, ◌<◌, ◌≡◌, refl, ◌∙◌, Bool, true, ◌&&◌, List, [], ◌∷◌, Option, none, some, leb,
  if◌then◌else◌, arith, Bool-cases, inl, inr,
}
use uaop.Base.Dict
use uaop.Base.Dict.{
  Dict, IsSorted, lookup, lookup-insert, keep_if, keep_if-IsSorted, keep_some, lookup-keep_if,
  All-keep_if,
}
use uaop.Base.Lists.{All}
use uaop.Base.Text.{Bytes, equal, equal_iff, equal_refl}
use uaop.Common.Dedup.Step.{absent, insert-ttl, insert-IsSorted, insert-result, insert-lookup}
use uaop.Common.Dedup.{DedupSet, new, unexpired, sweep, emplace, insert}

-- A call: when, and with which key.
abbrev pub Call : Type 0
Call = ℕ × Bytes

unfoldable pub run : ℕ → List Call → DedupSet
run ttl [] = new ttl
run ttl ((now, key) ∷ h) = (insert now key (run ttl h)).0

abbrev pub latest : List Call → ℕ
latest [] = 0
latest ((now, key) ∷ h) = now

abbrev pub IsMonotone : List Call → Type 0
IsMonotone [] = Unit
IsMonotone ((now, key) ∷ h) = (latest h ≤ now) × IsMonotone h

-- A delivery is novel if its key was never accepted, or not within the time to live.
abbrev pub is_novel : ℕ → ℕ → Option ℕ → Bool
is_novel ttl now none = true
is_novel ttl now (some t) = leb (t + ttl) now

-- When a key was last accepted: the specification, with no dictionary and no sweep.
unfoldable pub last_accept : ℕ → Bytes → List Call → Option ℕ
last_accept ttl key [] = none
last_accept ttl key ((now, k) ∷ h) =
    let before = last_accept ttl key h in
    if equal key k && is_novel ttl now before then some now else before

abbrev expiry : ℕ → Option ℕ → Option ℕ
expiry ttl none = none
expiry ttl (some t) = some (t + ttl)

-- From the latest call on, the entries and the specification agree on what is unexpired.
record Tracks (ttl : ℕ) (h : List Call) (s : DedupSet) : Type 0 where
  ttl_is : s.ttl ≡ ttl
  sorted : IsSorted s.entries
  agrees :
      (key : Bytes) (now : ℕ)
      → latest h ≤ now
      → keep_some (unexpired now) (lookup key s.entries)
        ≡ keep_some (unexpired now) (expiry ttl (last_accept ttl key h))

keep_some_twice :
    (n now : ℕ) (o : Option ℕ)
    → n ≤ now
    → keep_some (unexpired now) (keep_some (unexpired n) o) ≡ keep_some (unexpired now) o
keep_some_twice n now o h = ground arith

-- Where dictionary and specification agree on a key, they agree on whether it is novel.
absent-is_novel :
    (ttl now : ℕ) (o : Option ℕ)
    → absent (keep_some (unexpired now) (expiry ttl o)) ≡ is_novel ttl now o
absent-is_novel ttl now o = ground arith

same_agrees :
    (ttl now now' : ℕ) (e o : Option ℕ)
    → now ≤ now'
    → keep_some (unexpired now) e ≡ keep_some (unexpired now) (expiry ttl o)
    → keep_some (unexpired now') e ≡ keep_some (unexpired now') (expiry ttl o)
    → keep_some (unexpired now') (
        if absent (keep_some (unexpired now) e)
        then some (now + ttl)
        else keep_some (unexpired now) e)
      ≡ keep_some (unexpired now') (expiry ttl (if is_novel ttl now o then some now else o))
same_agrees ttl now now' none none h p q = refl
same_agrees ttl now now' none (some t) h p q = ground arith
same_agrees ttl now now' (some x) none h p q = ground arith
same_agrees ttl now now' (some x) (some t) h p q = ground arith

module _ (ttl now : ℕ) (key : Bytes) (h : List Call) (s : DedupSet) (m : latest h ≤ now)
    (v : Tracks ttl h s) where
  step_agrees :
      (k : Bytes) (now' : ℕ)
      → now ≤ now'
      → keep_some (unexpired now') (lookup k (insert now key s).0.entries)
        ≡ keep_some (unexpired now') (expiry ttl (last_accept ttl k ((now, key) ∷ h)))
  unfolding last_accept
  step_agrees k now' later = elim (Bool-cases (equal k key)) [
    | inl same ↦ rw (insert-lookup now key s v.sorted k) (
        rw (v.ttl_is, ← (equal_iff k key).0 same, equal_refl)
          (same_agrees ttl now now' (lookup k s.entries) (last_accept ttl k h) later
            (v.agrees k now m) (v.agrees k now' (omega arith))))
    | inr other ↦ rw (insert-lookup now key s v.sorted k) (
        rw other
          (keep_some_twice now now' (lookup k s.entries) later ∙ v.agrees k now' (omega arith)))
  ]

  step-Tracks : Tracks ttl ((now, key) ∷ h) (insert now key s).0
  step-Tracks = record {
    ttl_is = insert-ttl now key s ∙ v.ttl_is;
    sorted = insert-IsSorted now key s v.sorted;
    agrees = step_agrees;
  }

run-Tracks : (ttl : ℕ) (h : List Call) → IsMonotone h → Tracks ttl h (run ttl h)
unfolding run new
run-Tracks ttl [] m = record {
  ttl_is = refl;
  sorted = tt;
  agrees = λ k now later. unfold lookup last_accept in refl;
}
run-Tracks ttl ((now, key) ∷ h) m = step-Tracks ttl now key h (run ttl h) m.0 (run-Tracks ttl h m.1)

-- With a clock that never runs backwards, a delivery is reported as new exactly if its key was
-- never accepted before, or was last accepted at least the time to live ago. A duplicate that is
-- refused in between does not extend that time.
pub insert-is_novel :
    (ttl now : ℕ) (key : Bytes) (h : List Call)
    → IsMonotone ((now, key) ∷ h)
    → (insert now key (run ttl h)).1 ≡ is_novel ttl now (last_accept ttl key h)
insert-is_novel ttl now key h m =
    let v = run-Tracks ttl h m.1 in
    insert-result now key (run ttl h) v.sorted
    ∙ rw (v.agrees key now m.0) (absent-is_novel ttl now (last_accept ttl key h))

All-insert :
    (p : ℕ → Bool) (k : Bytes) (e : ℕ) (m : Dict ℕ)
    → p e ≡ true
    → All (λ x. p x.1 ≡ true) m
    → All (λ x. p x.1 ≡ true) (Dict.insert k e m)
unfolding Dict.insert
All-insert p k e [] h all = (h, tt)
All-insert p k e ((j, w) ∷ m) h all = ground (arith, All-insert p k e m h all.1)

emplace-unexpired :
    (p : ℕ → Bool) (o : Option ℕ) (k : Bytes) (e : ℕ) (t : DedupSet)
    → p e ≡ true
    → All (λ x. p x.1 ≡ true) t.entries
    → All (λ x. p x.1 ≡ true) (emplace o k e t).0.entries
emplace-unexpired p none k e t h all = All-insert p k e t.entries h all
emplace-unexpired p (some _) k e t h all = all

-- In any set, whatever the times of the earlier calls, a call leaves no entry behind that has
-- expired by then, if the time to live is positive.
pub insert-unexpired :
    (now : ℕ) (key : Bytes) (s : DedupSet)
    → 0 < s.ttl
    → All (λ x. unexpired now x.1 ≡ true) (insert now key s).0.entries
unfolding insert
insert-unexpired now key s h =
    emplace-unexpired (unexpired now) _ key (now + s.ttl) (sweep now s) (ground arith)
      (All-keep_if (unexpired now) s.entries)
