-- ===== src/Common/Config/Require.antt =====
-- `ConfigStore::require`: when it fails, and what it reports.
use mathlib.Core.List.{append_assoc}
use uaop.Base.{
  ◌≡◌, refl, ◌∙◌, Bool, true, false, List, [], ◌∷◌, ◌++◌, none, some, if◌then◌else◌, arith,
}
use uaop.Base.Lists.{All, select}
use uaop.Base.Text.{Bytes, codes, is_empty}
use uaop.Common.Config.Store.{ConfigStore, get, missing_from, append_missing, require}
use uaop.Common.Result.{Error, Result, ok, err, fatal}

abbrev pub is_missing : ConfigStore → Bytes → Bool
is_missing values key = elim (get key values) [ none ↦ true | some v ↦ false ]

-- Texts joined by ", ", as a list of names is written.
abbrev pub join_onto : Bytes → List Bytes → Bytes
join_onto s [] = s
join_onto s (k ∷ ks) = join_onto (append_missing s k) ks

missing_from-join_onto :
    (s : Bytes) (keys : List Bytes) (values : ConfigStore)
    → missing_from s keys values ≡ join_onto s (select (is_missing values) keys)
unfolding missing_from
missing_from-join_onto s [] values = refl
missing_from-join_onto s (k ∷ ks) values = ground (
  arith,
  missing_from-join_onto s ks values,
  missing_from-join_onto (append_missing s k) ks values,
)

-- Keys whose names are not empty.
abbrev pub AllNamed : List Bytes → Type 0
AllNamed = All (λ k. is_empty k ≡ false)

-- The names of a list, the first and the others, with ", " between them.
abbrev pub comma_list : Bytes → List Bytes → Bytes
comma_list k [] = k
comma_list k (j ∷ js) = k ++ (codes ", " ++ comma_list j js)

abbrev pub missing_error : Bytes → Error
missing_error names = record {
  error_class = fatal;
  code = codes "E_CONFIG_MISSING";
  message = codes "missing required config keys: " ++ names;
}

abbrev pub report : List Bytes → Result (Unit {0}) Error
report [] = ok tt
report (k ∷ ks) = err (missing_error (comma_list k ks))

append-ne_empty : (s t : Bytes) → is_empty t ≡ false → is_empty (s ++ t) ≡ false
append-ne_empty [] t h = h
append-ne_empty (c ∷ s) t h = refl

comma_list-ne_empty :
    (k : Bytes) (ks : List Bytes) → is_empty k ≡ false → is_empty (comma_list k ks) ≡ false
comma_list-ne_empty k [] h = h
comma_list-ne_empty [] (j ∷ js) h = cc
comma_list-ne_empty (c ∷ k) (j ∷ js) h = refl

join_onto-comma_list :
    (s k : Bytes) (ks : List Bytes)
    → is_empty k ≡ false
    → AllNamed ks
    → join_onto (s ++ k) ks ≡ s ++ comma_list k ks
join_onto-comma_list s k [] h hs = refl
join_onto-comma_list s k (j ∷ js) h hs =
    rw (append-ne_empty s k h)
      (join_onto-comma_list ((s ++ k) ++ codes ", ") j js hs.0 hs.1 ∙ simp append_assoc)

select-AllNamed : (p : Bytes → Bool) (keys : List Bytes) → AllNamed keys → AllNamed (select p keys)
select-AllNamed p [] h = tt
select-AllNamed p (k ∷ ks) h = ground (arith, select-AllNamed p ks h.1)

-- What `require` makes of the names that are missing.
finish : Bytes → Result (Unit {0}) Error
finish names = if is_empty names then ok tt else err (missing_error names)

finish-report : (ks : List Bytes) → AllNamed ks → finish (join_onto [] ks) ≡ report ks
unfolding finish
finish-report [] h = refl
finish-report (k ∷ ks) h =
    rw (join_onto-comma_list [] k ks h.0 h.1, finish) (rw (comma_list-ne_empty k ks h.0))

-- Where no key is the empty text, the requirement fails exactly if a key is missing, and the error
-- then names every missing key, in the order asked for, with ", " between them.
pub require-report :
    (keys : List Bytes) (values : ConfigStore)
    → AllNamed keys
    → require keys values ≡ report (select (is_missing values) keys)
unfolding require
require-report keys values h = rw (missing_from-join_onto [] keys values) (
    unfold finish in
    finish-report (select (is_missing values) keys) (select-AllNamed (is_missing values) keys h))

missing_from_empty :
    (keys : List Bytes) (values : ConfigStore)
    → All (λ k. k ≡ []) keys
    → missing_from [] keys values ≡ []
unfolding missing_from
missing_from_empty [] values h = refl
missing_from_empty (k ∷ ks) values h = ground (arith, missing_from_empty ks values h.1)

-- Empty keys are never found missing.
pub require_empty_keys :
    (keys : List Bytes) (values : ConfigStore)
    → All (λ k. k ≡ []) keys
    → require keys values ≡ ok tt
unfolding require
require_empty_keys keys values h = rw (missing_from_empty keys values h)
