-- ===== src/Common/Dedup/Step.antt =====
-- One call of the set: its result, and the entries that it leaves.
use uaop.Base.{
  ℕ, ◌+◌, ◌<◌, ◌≡◌, refl, ap, ◌∙◌, Bool, true, false, ◌&&◌, Option, none, some, if◌then◌else◌,
  arith,
}
use uaop.Base.Dict.{
  IsSorted, lookup, lookup-insert, insert-IsSorted as dict-insert-IsSorted, keep_if,
  keep_if-IsSorted, keep_some, lookup-keep_if,
}
use uaop.Base.Text.{Bytes, equal, equal_refl}
use uaop.Common.Dedup.{DedupSet, unexpired, sweep, emplace, insert}

pub insert-ttl : (now : ℕ) (key : Bytes) (s : DedupSet) → (insert now key s).0.ttl ≡ s.ttl
unfolding insert
insert-ttl now key s = ground arith

abbrev pub absent : Option ℕ → Bool
absent none = true
absent (some e) = false

module _ (key : Bytes) (e : ℕ) (t : DedupSet) where
  emplace-IsSorted : (o : Option ℕ) → IsSorted t.entries → IsSorted (emplace o key e t).0.entries
  emplace-IsSorted none h = dict-insert-IsSorted key e t.entries h
  emplace-IsSorted (some _) h = h

  emplace-lookup :
      (o : Option ℕ) (k : Bytes)
      → lookup k (emplace o key e t).0.entries
        ≡ (if equal k key && absent o then some e else lookup k t.entries)
  emplace-lookup none k = lookup-insert k key e t.entries ∙ ground arith
  emplace-lookup (some _) k = ground arith

  emplace-result : (o : Option ℕ) → (emplace o key e t).1 ≡ absent o
  emplace-result none = refl
  emplace-result (some _) = refl

module _ (now : ℕ) (key : Bytes) (s : DedupSet) (sorted : IsSorted s.entries) where
  pub insert-IsSorted : IsSorted (insert now key s).0.entries
  unfolding insert
  insert-IsSorted =
      emplace-IsSorted key (now + s.ttl) (sweep now s) _
        (keep_if-IsSorted (unexpired now) s.entries sorted)

  -- The entry of a key that a call finds after its sweep.
  abbrev pub found : Bytes → Option ℕ
  found k = keep_some (unexpired now) (lookup k s.entries)

  found_lem : (k : Bytes) → lookup k (keep_if (unexpired now) s.entries) ≡ found k
  found_lem k = lookup-keep_if k (unexpired now) s.entries sorted

  pub insert-result : (insert now key s).1 ≡ absent (found key)
  unfolding insert
  insert-result = emplace-result key (now + s.ttl) (sweep now s) _ ∙ ap absent (found_lem key)

  pub insert-lookup :
      (k : Bytes)
      → lookup k (insert now key s).0.entries
        ≡ (if equal k key && absent (found key) then some (now + s.ttl) else found k)
  unfolding insert
  insert-lookup k =
      emplace-lookup key (now + s.ttl) (sweep now s) _ k ∙ rw (found_lem key) (rw (found_lem k))

  -- An accepted key is kept until its time to live is over.
  pub insert_accepts :
      (insert now key s).1 ≡ true → lookup key (insert now key s).0.entries ≡ some (now + s.ttl)
  insert_accepts a = insert-lookup key ∙ rw equal_refl (rw (← insert-result) (rw a))

  -- Until then the key is refused, and stays.
  pub insert_refuses :
      (e : ℕ)
      → lookup key s.entries ≡ some e
      → now < e
      → ((insert now key s).1 ≡ false) × (lookup key (insert now key s).0.entries ≡ some e)
  insert_refuses e l lt =
      let here : found key ≡ some e = rw l (ground arith) in
      (insert-result ∙ rw here, insert-lookup key ∙ rw here (ground arith))
