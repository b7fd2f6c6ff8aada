-- ===== src/Common/Config/Loading.antt =====
-- How loading a file fails: at its first malformed line, with the entries above it kept.
use uaop.Base.{ℕ, ◌+◌, ◌≡◌, refl, ◌∙◌, ap, true, List, [], ◌∷◌, ◌++◌, some, arith, ◌⊎◌, inl, inr}
use uaop.Base.Lists.{All, length}
use uaop.Base.Text.{Bytes}
use uaop.Common.Config.Line.{ParsedLine, parse_config_line}
use uaop.Common.Config.Store.{ConfigStore, assign, located, load_lines, lines, load_file}
use uaop.Common.Result.{Error, Result, ok, err, is_ok}

abbrev pub IsWellFormed : Bytes → Type 0
IsWellFormed l = is_ok (parse_config_line l) ≡ true

-- The store after lines that are all well formed.
abbrev pub assign_ok : ParsedLine → ConfigStore → ConfigStore
assign_ok (ok entry) values = assign entry values
assign_ok (err e) values = values

abbrev pub assign_all : List Bytes → ConfigStore → ConfigStore
assign_all [] values = values
assign_all (l ∷ ls) values = assign_all ls (assign_ok (parse_config_line l) values)

-- `good` are the lines above the first malformed one, `bad`, whose number is reported.
pub record StopsAt (path : Bytes) (n : ℕ) (ls : List Bytes) (old : ConfigStore)
    (outcome : ConfigStore × Result (Unit {0}) Error) : Type 0 where
  pub good : List Bytes
  pub bad : Bytes
  pub rest : List Bytes
  pub reason : Error
  pub splits : ls ≡ good ++ bad ∷ rest
  pub well_formed : All IsWellFormed good
  pub malformed : parse_config_line bad ≡ err reason
  pub keeps : outcome.0 ≡ assign_all good old
  pub reports : outcome.1 ≡ err (located path (n + length good + 1) reason)

-- Every line is well formed, and all entries are in the store.
pub record Loads (ls : List Bytes) (old : ConfigStore)
    (outcome : ConfigStore × Result (Unit {0}) Error) : Type 0 where
  pub all_well_formed : All IsWellFormed ls
  pub holds : outcome.0 ≡ assign_all ls old
  pub succeeds : outcome.1 ≡ ok tt

module _ (path : Bytes) where
  abbrev Outcome : ℕ → List Bytes → ConfigStore → Type 0
  Outcome n ls values =
      Loads ls values (load_lines path n ls values)
      ⊎ StopsAt path n ls values (load_lines path n ls values)

  module _ (n : ℕ) (l : Bytes) (ls : List Bytes) (values : ConfigStore) where
    load_step :
        (r : ParsedLine)
        → parse_config_line l ≡ r
        → ((vs : ConfigStore) → Outcome (n + 1) ls vs)
        → Outcome n (l ∷ ls) values
    unfolding load_lines is_ok
    load_step (err x) e later = inr (record {
      good = [];
      bad = l;
      rest = ls;
      reason = x;
      splits = refl;
      well_formed = tt;
      malformed = e;
      keeps = rw (e, load_lines) refl;
      reports = rw (e, load_lines) (ap (λ (k : ℕ). err (located path k x)) (omega arith));
    })
    load_step (ok entry) e later = elim (later (assign entry values)) [
      | inl s ↦ inl (record {
        all_well_formed = (rw e refl, s.all_well_formed);
        holds = rw (e, load_lines) s.holds;
        succeeds = rw (e, load_lines) s.succeeds;
      })
      | inr s ↦ inr (record {
        good = l ∷ s.good;
        bad = s.bad;
        rest = s.rest;
        reason = s.reason;
        splits = ap (◌∷◌ l) s.splits;
        well_formed = (rw e refl, s.well_formed);
        malformed = s.malformed;
        keeps = rw (e, load_lines) s.keeps;
        reports =
            rw (e, load_lines)
              (s.reports ∙ ap (λ (k : ℕ). err (located path k s.reason)) (omega arith));
      })
    ]

  load_lines-Outcome : (n : ℕ) (ls : List Bytes) (values : ConfigStore) → Outcome n ls values
  load_lines-Outcome n [] values = inl (record {
    all_well_formed = tt;
    holds = unfold load_lines in refl;
    succeeds = unfold load_lines in refl;
  })
  load_lines-Outcome n (l ∷ ls) values =
      load_step n l ls values (parse_config_line l) refl (load_lines-Outcome (n + 1) ls)

  -- Loading a file that can be opened either succeeds, all lines being well formed and all their
  -- entries stored in order, or fails at the first malformed line: the error carries the path,
  -- the number of that line, counted from 1, and the parser's code and message, and the store
  -- keeps the entries of the lines above it.
  pub load_file-outcome :
      (text : Bytes) (values : ConfigStore)
      → Loads (lines text) values (load_file path (some text) values)
        ⊎ StopsAt path 0 (lines text) values (load_file path (some text) values)
  unfolding load_file
  load_file-outcome text values = load_lines-Outcome 0 (lines text) values
