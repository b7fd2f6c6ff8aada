-- ===== src/Common/Server/Probe.antt =====
-- A health probe from end to end: updates of checks, a request for the health, and what the client
-- reads in the answer.
use mathlib.Core.Option
use uaop.Base.{
  ℕ, ◌≤◌, ◌<◌, ◌≡◌, refl, ◌∙◌, ap, Bool, true, false, List, [], ◌∷◌, ◌++◌, Option, some,
  if◌then◌else◌, arith, Bool-cases, inl, inr,
}
use uaop.Base.Dict.{lookup, insert}
use uaop.Base.Lists.{All, length, length-append}
use uaop.Base.Text.{Bytes, codes, equal, less}
use uaop.Common.Config.Store.{c_str}
use uaop.Common.Health.{
  HealthState, ok, to_string, Check, HealthRegistry, set, overall, worse, json_escaped,
  render_check, render_from, render_json,
}
use uaop.Common.Health.Render.{has_control}
use uaop.Common.Health.Report.{IsClean, read_report, read_report-render_json}
use uaop.Common.Health.Worst.{Update, set_all, latest, lookup-set_all}
use uaop.Common.Json.{then_read}
use uaop.Common.Metrics.{MetricRegistry}
use uaop.Common.Server.{handle_connection}
use uaop.Common.Server.Response.{read_response, body_for, handle_connection-read}

-- What a client makes of the bytes received: the status and the checks. A report has fewer checks
-- than bytes.
unfoldable pub probe : Option Bytes → Option (HealthState × HealthRegistry)
probe sent =
    then_read (Option.map read_response sent)
      (λ response. then_read response (λ (n, body). read_report (length body) body))

abbrev pub IsCleanUpdate : Update → Type 0
IsCleanUpdate u = (has_control u.name ≡ false) × (has_control u.reason ≡ false)

insert-IsClean :
    (name : Bytes) (check : Check) (checks : HealthRegistry)
    → has_control name ≡ false
    → has_control check.reason ≡ false
    → IsClean checks
    → IsClean (insert name check checks)
unfolding insert
insert-IsClean name check [] a b h = ((a, b), tt)
insert-IsClean name check ((j, c) ∷ checks) a b h = elim (Bool-cases (equal name j)) [
  | inl here ↦ rw here ((a, b), h.1)
  | inr other ↦ rw other (elim (Bool-cases (less name j)) [
    | inl before ↦ rw before ((a, b), h)
    | inr after ↦ rw after (h.0, insert-IsClean name check checks a b h.1)
  ])
]

set_all-IsClean : (us : List Update) → All IsCleanUpdate us → IsClean (set_all us)
unfolding set_all set
set_all-IsClean [] h = tt
set_all-IsClean (u ∷ us) h =
    insert-IsClean u.name _ (set_all us) h.0.0 h.0.1 (set_all-IsClean us h.1)

length-render_check : (name : Bytes) (check : Check) → 0 < length (render_check name check)
unfolding render_check json_escaped
length-render_check name check = omega arith

length-render_from :
    (first : Bool) (w : HealthState) (checks : HealthRegistry)
    → length checks ≤ length (render_from first w checks).1
unfolding render_from
length-render_from first w [] = omega arith
length-render_from first w ((name, check) ∷ checks) =
    let more = (render_from false (worse w check.state) checks).1 in
    rw
      (
        length-append (if first then [] else codes ",") (render_check name check ++ more),
        length-append (render_check name check) more,
      )
      (omega (
        arith,
        length-render_check name check,
        length-render_from false (worse w check.state) checks,
      ))

length-render_json : (checks : HealthRegistry) → length checks < length (render_json checks)
unfolding render_json
length-render_json checks =
    let drawn = render_from true ok checks in
    rw
      (
        length-append (to_string drawn.0) (codes "\",\"checks\":{" ++ (drawn.1 ++ codes "}}")),
        length-append drawn.1 (codes "}}"),
      )
      (omega (arith, length-render_from true ok checks))

module _ {D : Type 0} (show_double : D → Bytes) (of_count : ℕ → D) where
  probe-overall :
      (checks : HealthRegistry) (metrics : MetricRegistry D) (request : Bytes)
      → IsClean checks
      → probe
          (handle_connection show_double of_count checks metrics (codes "GET /healthz" ++ request))
        ≡ some (overall checks, checks)
  unfolding probe
  probe-overall checks metrics request clean =
      let routed : body_for show_double of_count checks metrics
            (c_str (codes "GET /healthz" ++ request))
          ≡ render_json checks =
        unfold c_str in refl in
      rw
        (handle_connection-read show_double of_count checks metrics b'G'
          (codes "ET /healthz" ++ request))
        (ap (λ body. read_report (length body) body) routed
          ∙ read_report-render_json (length (render_json checks)) checks (length-render_json checks)
              clean)

  -- If the names and reasons of all updates are free of control characters, then after any updates
  -- of the health registry and whatever the metrics hold, a request for `/healthz` is answered so
  -- that the client reads as status the aggregate that `overall` computes, and reads under every
  -- name the latest state and reason it was updated with, or nothing where it never was.
  pub probe-latest :
      (us : List Update) (metrics : MetricRegistry D) (request name : Bytes)
      → All IsCleanUpdate us
      → let answer = probe (
          handle_connection show_double of_count
            (set_all us)
            metrics
            (codes "GET /healthz" ++ request)) in
        (Option.map (λ r. r.0) answer ≡ some (overall (set_all us)))
        × (then_read answer (λ (status, checks). lookup name checks) ≡ latest name us)
  probe-latest us metrics request name clean =
      rw (probe-overall (set_all us) metrics request (set_all-IsClean us clean))
        (refl, lookup-set_all name us)
