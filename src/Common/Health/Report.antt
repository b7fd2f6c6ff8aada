-- ===== src/Common/Health/Report.antt =====
-- The whole health report, read back by a client.
use mathlib.Core.List.{append_assoc}
use uaop.Base.{
  ℕ, zero, suc, ◌<◌, ◌≡◌, refl, ◌∙◌, ap, Bool, true, false, [], ◌∷◌, ◌++◌, Option, none, some,
  if◌then◌else◌, arith,
}
use uaop.Base.Lists.{All, length}
use uaop.Base.Text.{Bytes, codes, strip_prefix}
use uaop.Common.Health.{
  HealthState, ok, degraded, fail, to_string, Check, HealthRegistry, worse, overall, json_escaped,
  render_check, render_from, render_json,
}
use uaop.Common.Health.Render.{has_control, read_json-json_escaped_control, render_from-worst_from}
use uaop.Common.Json.{read_json, then_read}

-- The name of a state behind its opening quote.
abbrev pub read_state : Bytes → Option (HealthState × Bytes)
read_state [] = none
read_state (c ∷ s) = elim (strip_prefix (codes "OK\"") (c ∷ s)) [
  | some rest ↦ some (ok, rest)
  | none ↦ elim (strip_prefix (codes "DEGRADED\"") (c ∷ s)) [
    | some rest ↦ some (degraded, rest)
    | none ↦ elim (strip_prefix (codes "FAIL\"") (c ∷ s)) [
      | some rest ↦ some (fail, rest)
      | none ↦ none
    ]
  ]
]

-- One check with its name, and what follows.
unfoldable pub read_check : Bytes → Option ((Bytes × Check) × Bytes)
read_check s = then_read (read_json s) (λ (name, s1).
    then_read (strip_prefix (codes ":{\"state\":\"") s1) (λ s2.
      then_read (read_state s2) (λ (state, s3).
        then_read (strip_prefix (codes ",\"reason\":") s3) (λ s4.
          then_read (read_json s4) (λ (reason, s5).
            then_read (strip_prefix (codes "}") s5)
              (λ s6. some ((name, record { state = state; reason = reason }), s6)))))))

-- The text holds no control characters.
abbrev pub IsClean : HealthRegistry → Type 0
IsClean = All (λ e. (has_control e.0 ≡ false) × (has_control e.1.reason ≡ false))

read_json_clean :
    (s rest : Bytes) → has_control s ≡ false → read_json (json_escaped s ++ rest) ≡ some (s, rest)
read_json_clean s rest h = read_json-json_escaped_control s rest ∙ rw h refl

read_state-to_string :
    (st : HealthState) (rest : Bytes)
    → read_state (to_string st ++ (codes "\"" ++ rest)) ≡ some (st, rest)
unfolding to_string
read_state-to_string ok rest = refl
read_state-to_string degraded rest = refl
read_state-to_string fail rest = refl

render_check-parts :
    (name : Bytes) (check : Check) (rest : Bytes)
    → render_check name check ++ rest
      ≡ json_escaped name
        ++ (codes ":{\"state\":\""
            ++ (to_string check.state
                ++ (codes "\""
                    ++ (codes ",\"reason\":"
                        ++ (json_escaped check.reason ++ (codes "}" ++ rest))))))
unfolding render_check json_escaped
render_check-parts name check rest = simp append_assoc

read_check-render_check :
    (name : Bytes) (check : Check) (rest : Bytes)
    → has_control name ≡ false
    → has_control check.reason ≡ false
    → read_check (render_check name check ++ rest) ≡ some ((name, check), rest)
unfolding read_check
read_check-render_check name check rest a b =
    let after_reason = codes "}" ++ rest in
    let after_state = codes ",\"reason\":" ++ (json_escaped check.reason ++ after_reason) in
    let after_name =
      codes ":{\"state\":\"" ++ (to_string check.state ++ (codes "\"" ++ after_state)) in
    ap read_check (render_check-parts name check rest)
    ∙ rw (read_json_clean name after_name a) (
        rw (read_state-to_string check.state after_state)
          (rw (read_json_clean check.reason after_reason b) refl))

strip_prefix-render_check :
    (name : Bytes) (check : Check) (rest : Bytes)
    → strip_prefix (codes "}") (render_check name check ++ rest) ≡ none
unfolding render_check json_escaped
strip_prefix-render_check name check rest = refl

-- What follows the opening brace of the checks; the fuel bounds their number.
unfoldable pub read_checks : Bool → ℕ → Bytes → Option (HealthRegistry × Bytes)
read_checks first zero s = none
read_checks first (suc n) s = elim (strip_prefix (codes "}") s) [
  | some rest ↦ some ([], rest)
  | none ↦ then_read (if first then some s else strip_prefix (codes ",") s) (λ s1.
      then_read (read_check s1) (λ (entry, s2).
        then_read (read_checks false n s2) (λ (entries, s3). some (entry ∷ entries, s3))))
]

read_checks-render_from :
    (first : Bool) (n : ℕ) (w : HealthState) (checks : HealthRegistry) (rest : Bytes)
    → length checks < n
    → IsClean checks
    → read_checks first n ((render_from first w checks).1 ++ (codes "}" ++ rest))
      ≡ some (checks, rest)
unfolding read_checks render_from
read_checks-render_from first (suc n) w [] rest f h = refl
read_checks-render_from true (suc n) w ((name, check) ∷ checks) rest f h =
    let more = (render_from false (worse w check.state) checks).1 in
    ap (read_checks true (suc n)) (append_assoc (render_check name check) more (codes "}" ++ rest))
    ∙ rw (strip_prefix-render_check name check (more ++ (codes "}" ++ rest)), read_checks)
        (rw (read_check-render_check name check (more ++ (codes "}" ++ rest)) h.0.0 h.0.1) (
          rw (read_checks-render_from false n (worse w check.state) checks rest (omega arith) h.1)
            refl))
read_checks-render_from false (suc n) w ((name, check) ∷ checks) rest f h =
    let more = (render_from false (worse w check.state) checks).1 in
    ap (λ s. read_checks false (suc n) (b',' ∷ s))
      (append_assoc (render_check name check) more (codes "}" ++ rest))
    ∙ rw (read_check-render_check name check (more ++ (codes "}" ++ rest)) h.0.0 h.0.1) (
        rw (read_checks-render_from false n (worse w check.state) checks rest (omega arith) h.1)
          refl)
read_checks-render_from first zero w checks rest f h = ground arith

-- A client that reads the status and the checks of a report.
unfoldable pub read_report : ℕ → Bytes → Option (HealthState × HealthRegistry)
read_report n s = then_read (strip_prefix (codes "{\"status\":\"") s) (λ s1.
    then_read (read_state s1) (λ (status, s2).
      then_read (strip_prefix (codes ",\"checks\":{") s2) (λ s3.
        then_read (read_checks true n s3)
          (λ (checks, s4). then_read (strip_prefix (codes "}") s4) (λ s5. some (status, checks))))))

render_json-parts :
    (checks : HealthRegistry)
    → render_json checks
      ≡ codes "{\"status\":\""
        ++ (to_string (overall checks)
            ++ (codes "\""
                ++ (codes ",\"checks\":{"
                    ++ ((render_from true ok checks).1 ++ (codes "}" ++ codes "}")))))
unfolding render_json overall
render_json-parts checks = rw (render_from-worst_from true ok checks) refl

-- As long as no name and no reason holds a control character, a client with room for the checks
-- reads back from the report the aggregate that `overall` computes and every check with its name,
-- state and reason.
pub read_report-render_json :
    (n : ℕ) (checks : HealthRegistry)
    → length checks < n
    → IsClean checks
    → read_report n (render_json checks) ≡ some (overall checks, checks)
unfolding read_report
read_report-render_json n checks f h =
    ap (read_report n) (render_json-parts checks)
    ∙ rw
        (read_state-to_string (overall checks)
          (codes ",\"checks\":{" ++ ((render_from true ok checks).1 ++ (codes "}" ++ codes "}"))))
        (rw (read_checks-render_from true n ok checks (codes "}") f h) refl)
