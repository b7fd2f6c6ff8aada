-- ===== src/Common/Config/Sound.antt =====
-- What `parse_config_line` returns: every key is one that the format can express.
use uaop.Base.{
  ℕ, ◌≡◌, refl, sym, ap, false, [], ◌∷◌, ◌++◌, Option, none, some, ◌==◌, ==_iff, arith, Bool-cases,
  inl, inr,
}
use uaop.Base.Lists.{All}
use uaop.Base.Text.{Bytes, is_empty}
use uaop.Common.Config.Line.{
  is_space, trim_start, trim_end, trim, strip_quotes, find_colon, before, parse_entry, is_skipped,
  parse_config_line,
}
use uaop.Common.Config.Trim.{Starts, trim-IsTrimmed, trim_start-Starts}
use uaop.Common.Config.Written.{NoColon, OpensKey, IsKey}
use uaop.Common.Result.{ok}

record Splits (s : Bytes) (p x : Bytes) : Type 0 where
  splits : s ≡ p ++ b':' ∷ x
  no_colon : NoColon p

Splits-cons :
    (c : ℕ) (s : Bytes) (o : Option (Bytes × Bytes)) (p x : Bytes)
    → (c == b':') ≡ false
    → ((q y : Bytes) → o ≡ some (q, y) → Splits s q y)
    → before c o ≡ some (p, x)
    → Splits (c ∷ s) p x
Splits-cons c s none p x n later e = cc
Splits-cons c s (some (q, y)) p x n later e =
    let h = later q y refl in
    let key : c ∷ q ≡ p = cc in
    let value : y ≡ x = cc in
    rw (← key, ← value) (record { splits = ap (◌∷◌ c) h.splits; no_colon = (n, h.no_colon) })

find_colon-Splits : (s p x : Bytes) → find_colon s ≡ some (p, x) → Splits s p x
unfolding find_colon
find_colon-Splits [] p x e = cc
find_colon-Splits (c ∷ s) p x e = elim (Bool-cases (c == b':')) [
  | inl here ↦
      let found : Path (Option (Bytes × Bytes)) (some ([], s)) (some (p, x)) = rw here at e in
      let key : ◌≡◌ {A = Bytes} [] p = cc in
      let value : s ≡ x = cc in
      rw (← key, ← value)
        (record { splits = ap (λ d. d ∷ s) ((==_iff c b':').0 here); no_colon = tt })
  | inr there ↦ Splits-cons c s (find_colon s) p x there (find_colon-Splits s) (rw there at e)
]

module _ {ℓ} (P : ℕ → Type ℓ) where
  All-trim_start : (s : Bytes) → All P s → All P (trim_start s)
  unfolding trim_start
  All-trim_start [] h = h
  All-trim_start (c ∷ s) h = ground (arith, All-trim_start s h.1)

  All-trim_end : (s : Bytes) → All P s → All P (trim_end s)
  unfolding trim_end
  All-trim_end [] h = h
  All-trim_end (c ∷ s) h = ground (arith, All-trim_end s h.1)

record EntryOf (o : Option (Bytes × Bytes)) (k v : Bytes) : Type 0 where
  key_text : Bytes
  value_text : Bytes
  found : o ≡ some (key_text, value_text)
  key_is : k ≡ trim key_text
  value_is : v ≡ strip_quotes (trim value_text)
  not_empty : is_empty k ≡ false

parse_entry-EntryOf :
    (line : Bytes) (o : Option (Bytes × Bytes)) (k v : Bytes)
    → parse_entry line o ≡ ok (some (k, v))
    → EntryOf o k v
unfolding parse_entry
parse_entry-EntryOf line none k v e = cc
parse_entry-EntryOf line (some (p, x)) k v e = elim (Bool-cases (is_empty (trim p))) [
  | inl blank ↦ let r = rw blank at e in cc
  | inr filled ↦
      let r = rw filled at e in
      let key : trim p ≡ k = cc in
      record {
        key_text = p;
        value_text = x;
        found = refl;
        key_is = sym key;
        value_is = cc;
        not_empty = rw (← key) filled;
      }
]

OpensKey-trim_end :
    (c : ℕ) (p : Bytes) → is_space c ≡ false → (c == b'#') ≡ false → OpensKey (trim_end (c ∷ p))
unfolding trim_end
OpensKey-trim_end c p s h = rw s h

-- The text before the colon of a line that is trimmed and no comment.
OpensKey-trim :
    (line p x : Bytes)
    → line ≡ p ++ b':' ∷ x
    → Starts line
    → is_skipped line ≡ false
    → is_empty (trim p) ≡ false
    → OpensKey (trim p)
unfolding trim is_skipped trim_end trim_start
OpensKey-trim line [] x e s k n = cc
OpensKey-trim line (c ∷ p) x e s k n =
    let clean : is_space c ≡ false = rw e at s in
    rw (trim_start-Starts (c ∷ p) clean) (OpensKey-trim_end c p clean (rw e at k))

-- Every key that a line is parsed to is one that the format can express: it is not empty, has no
-- white space at its ends, does not begin with `#` and holds no colon.
pub parse-IsKey : (raw k v : Bytes) → parse_config_line raw ≡ ok (some (k, v)) → IsKey k
unfolding parse_config_line
parse-IsKey raw k v e = elim (Bool-cases (is_skipped (trim raw))) [
  | inl skip ↦ let r = rw skip at e in cc
  | inr real ↦
      let entry = parse_entry-EntryOf (trim raw) (find_colon (trim raw)) k v (rw real at e) in
      let s = find_colon-Splits (trim raw) entry.key_text entry.value_text entry.found in
      rw entry.key_is (record {
        trimmed = trim-IsTrimmed entry.key_text;
        opens =
            OpensKey-trim (trim raw) entry.key_text entry.value_text s.splits
              (trim-IsTrimmed raw).starts real (rw (← entry.key_is) entry.not_empty);
        no_colon =
            unfold trim in
            All-trim_end _ (trim_start entry.key_text) (All-trim_start _ entry.key_text s.no_colon);
      })
]
