-- ===== src/Common/Config/Written.antt =====
-- A line that is written in the format is read back, whatever white space stands around its parts.
use mathlib.Core.List.{append-nil, append_assoc}
use uaop.Base.{
  ℕ, ◌≡◌, refl, sym, ap, ◌∙◌, Bool, true, false, ◌||◌, [], ◌∷◌, ◌++◌, some, ◌==◌, arith,
}
use uaop.Base.Lists.{All, All-append}
use uaop.Base.Text.{Bytes}
use uaop.Common.Config.Line.{
  is_space, trim_end, trim, back, drop_back, strip_quotes, find_colon, parse_entry, is_skipped,
  parse_config_line,
}
use uaop.Common.Config.Trim.{
  AllSpace, Ends, IsTrimmed, trim_start-append, trim_start-AllSpace, trim_start-Starts,
  trim_end-append, trim_end-AllSpace, trim_end-Ends, trim_end-stop,
}
use uaop.Common.Result.{ok}

abbrev pub NoColon : Bytes → Type 0
NoColon = All (λ c. (c == b':') ≡ false)

-- The first byte is there, and does not open a comment.
abbrev pub OpensKey : Bytes → Type 0
OpensKey [] = ⊥
OpensKey (c ∷ cs) = (c == b'#') ≡ false

-- A key that the format can express.
pub record IsKey (k : Bytes) : Type 0 where
  pub trimmed : IsTrimmed k
  pub opens : OpensKey k
  pub no_colon : NoColon k

abbrev pub is_quote : ℕ → Bool
is_quote c = c == b'"' || c == b'\''

abbrev pub Unquoted : Bytes → Type 0
Unquoted [] = Unit
Unquoted (c ∷ cs) = is_quote c ≡ false

-- `Writes t v`: the text `t` stands for the value `v`, bare or between two equal quotes.
pub data Writes : Bytes → Bytes → Type 0 where
  bare : {v : Bytes} → IsTrimmed v → Unquoted v → Writes v v
  quoted : {t v : Bytes} (q : ℕ) → is_quote q ≡ true → t ≡ q ∷ (v ++ q ∷ []) → Writes t v

is_quote-not_space : (q : ℕ) → is_quote q ≡ true → is_space q ≡ false
is_quote-not_space q h = ground arith

Ends-concat : (s : Bytes) (c : ℕ) → is_space c ≡ false → Ends (s ++ c ∷ [])
Ends-concat [] c h = h
Ends-concat (a ∷ []) c h = h
Ends-concat (a ∷ b ∷ s) c h = Ends-concat (b ∷ s) c h

back-concat : (c : ℕ) (s : Bytes) (q : ℕ) → back c (s ++ q ∷ []) ≡ q
unfolding back
back-concat c [] q = refl
back-concat c (d ∷ s) q = back-concat d s q

drop_back-concat : (s : Bytes) (q : ℕ) → drop_back (s ++ q ∷ []) ≡ s
unfolding drop_back
drop_back-concat [] q = refl
drop_back-concat (a ∷ []) q = refl
drop_back-concat (a ∷ b ∷ s) q = ap (◌∷◌ a) (drop_back-concat (b ∷ s) q)

strip_quotes_bare : (v : Bytes) → Unquoted v → strip_quotes v ≡ v
unfolding strip_quotes
strip_quotes_bare [] h = refl
strip_quotes_bare (c ∷ []) h = refl
strip_quotes_bare (c ∷ d ∷ cs) h = ground arith

strip_quotes_quoted : (q : ℕ) (v : Bytes) → is_quote q ≡ true → strip_quotes (q ∷ (v ++ q ∷ [])) ≡ v
unfolding strip_quotes
strip_quotes_quoted q [] h = unfold back drop_back in ground arith
strip_quotes_quoted q (d ∷ v) h = ground (arith, back-concat d v q, drop_back-concat (d ∷ v) q)

pub Writes-IsTrimmed : {t v : Bytes} → Writes t v → IsTrimmed t
Writes-IsTrimmed (bare h u) = h
Writes-IsTrimmed (quoted {v = v} q h e) = rw e (record {
  starts = is_quote-not_space q h;
  ends = Ends-concat (q ∷ v) q (is_quote-not_space q h);
})

pub Writes-strip_quotes : {t v : Bytes} → Writes t v → strip_quotes t ≡ v
Writes-strip_quotes (bare {v = v} h u) = strip_quotes_bare v u
Writes-strip_quotes (quoted {v = v} q h e) = rw e (strip_quotes_quoted q v h)

find_colon-append : (p x : Bytes) → NoColon p → find_colon (p ++ b':' ∷ x) ≡ some (p, x)
unfolding find_colon
find_colon-append [] x h = refl
find_colon-append (c ∷ p) x h = rw (h.0, find_colon-append p x h.1)

AllSpace-NoColon : (w : Bytes) → AllSpace w → NoColon w
AllSpace-NoColon [] h = tt
AllSpace-NoColon (c ∷ w) h = (ground (arith, h.0), AllSpace-NoColon w h.1)

trim-pad : (w1 t w2 : Bytes) → AllSpace w1 → AllSpace w2 → IsTrimmed t → trim (w1 ++ (t ++ w2)) ≡ t
unfolding trim
trim-pad w1 [] w2 h1 h2 v =
    rw (trim_start-append w1 w2 h1) (rw (trim_start-AllSpace w2 h2) (trim_end-AllSpace [] tt))
trim-pad w1 (c ∷ t) w2 h1 h2 v =
    rw (trim_start-append w1 _ h1, trim_start-Starts (c ∷ (t ++ w2)) v.starts)
      (trim_end-append (c ∷ t) w2 h2 ∙ trim_end-Ends (c ∷ t) v.ends)

Ends-append : (w : Bytes) (c : ℕ) (t : Bytes) → Ends (c ∷ t) → Ends (w ++ c ∷ t)
Ends-append [] c t h = h
Ends-append (a ∷ []) c t h = h
Ends-append (a ∷ b ∷ w) c t h = Ends-append (b ∷ w) c t h

trim-trim_end-pad :
    (w3 t w4 : Bytes)
    → AllSpace w3
    → AllSpace w4
    → IsTrimmed t
    → trim (trim_end (w3 ++ (t ++ w4))) ≡ t
trim-trim_end-pad w3 [] w4 h3 h4 v =
    rw (trim_end-AllSpace (w3 ++ w4) (All-append _ w3 w4 h3 h4)) (trim-pad [] [] [] tt tt v)
trim-trim_end-pad w3 (c ∷ t) w4 h3 h4 v = rw (← append_assoc w3 (c ∷ t) w4) (
    rw (trim_end-append (w3 ++ c ∷ t) w4 h4) (
      rw (trim_end-Ends (w3 ++ c ∷ t) (Ends-append w3 c t v.ends))
        (ap (λ y. trim (w3 ++ y)) (sym (append-nil (c ∷ t))) ∙ trim-pad w3 (c ∷ t) [] h3 tt v)))

-- A line as it is written: a key and a text around a colon, with white space between the parts.
abbrev pub written : Bytes → Bytes → Bytes → Bytes → Bytes → Bytes → Bytes
written w1 k w2 w3 t w4 = w1 ++ (k ++ (w2 ++ (b':' ∷ (w3 ++ (t ++ w4)))))

trim-written :
    (w1 k w2 w3 t w4 : Bytes)
    → AllSpace w1
    → IsKey k
    → trim (written w1 k w2 w3 t w4) ≡ k ++ (w2 ++ b':' ∷ trim_end (w3 ++ (t ++ w4)))
unfolding trim
trim-written w1 [] w2 w3 t w4 h key = absurd key.opens
trim-written w1 (c ∷ k) w2 w3 t w4 h key =
    ap trim_end (trim_start-append w1 _ h ∙ trim_start-Starts (c ∷ (k ++ _)) key.trimmed.starts)
    ∙ ap trim_end (sym (append_assoc (c ∷ k) w2 (b':' ∷ (w3 ++ (t ++ w4)))))
    ∙ trim_end-stop ((c ∷ k) ++ w2) b':' (w3 ++ (t ++ w4)) refl
    ∙ append_assoc (c ∷ k) w2 _

is_skipped_key : (k x : Bytes) → OpensKey k → is_skipped (k ++ x) ≡ false
unfolding is_skipped
is_skipped_key [] x h = absurd h
is_skipped_key (c ∷ k) x h = h

find_colon_written :
    (k w2 x : Bytes)
    → NoColon k
    → AllSpace w2
    → find_colon (k ++ (w2 ++ b':' ∷ x)) ≡ some (k ++ w2, x)
find_colon_written k w2 x h h2 =
    rw (← append_assoc k w2 (b':' ∷ x))
      (find_colon-append (k ++ w2) x (All-append _ k w2 h (AllSpace-NoColon w2 h2)))

parse_entry_written :
    (line k w2 x t v : Bytes)
    → IsKey k
    → AllSpace w2
    → trim x ≡ t
    → Writes t v
    → parse_entry line (some (k ++ w2, x)) ≡ ok (some (k, v))
unfolding parse_entry
parse_entry_written line [] w2 x t v key h e w = absurd key.opens
parse_entry_written line (c ∷ k) w2 x t v key h e w =
    rw (trim-pad [] (c ∷ k) w2 tt h key.trimmed) (rw e (rw (Writes-strip_quotes w) refl))

-- A line that writes a key and a value around a colon is parsed to just these, whatever white
-- space stands before, between and behind them. The key holds no colon, does not begin with `#`
-- and has no white space at its ends; the value stands bare, with no white space at its ends and
-- no quote in front, or, with any content, between two equal quotes.
pub parse-written :
    (w1 k w2 w3 t w4 v : Bytes)
    → AllSpace w1
    → AllSpace w2
    → AllSpace w3
    → AllSpace w4
    → IsKey k
    → Writes t v
    → parse_config_line (written w1 k w2 w3 t w4) ≡ ok (some (k, v))
unfolding parse_config_line
parse-written w1 k w2 w3 t w4 v h1 h2 h3 h4 key w = rw (trim-written w1 k w2 w3 t w4 h1 key) (
    rw (is_skipped_key k (w2 ++ b':' ∷ trim_end (w3 ++ (t ++ w4))) key.opens) (
      rw (find_colon_written k w2 (trim_end (w3 ++ (t ++ w4))) key.no_colon h2) (
        parse_entry_written _ k w2 (trim_end (w3 ++ (t ++ w4))) t v key h2
          (trim-trim_end-pad w3 t w4 h3 h4 (Writes-IsTrimmed w)) w)))
