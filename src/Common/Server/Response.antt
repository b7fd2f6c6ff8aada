-- ===== src/Common/Server/Response.antt =====
-- A client gets the routed body back from what the server sends.
use mathlib.Core.Option
use uaop.Base.{
  ℕ, ◌≡◌, refl, ap, Bool-cases, [], ◌∷◌, ◌++◌, Option, none, some, inl, inr, if◌then◌else◌, arith,
}
use uaop.Base.Decimal.{to_string, read_digits, read_digits-to_string}
use uaop.Base.Lists.{length}
use uaop.Base.Text.{Bytes, codes, strip_prefix}
use uaop.Common.Config.Store.{c_str}
use uaop.Common.Health.{HealthRegistry, render_json}
use uaop.Common.Metrics.{MetricRegistry, render_prometheus}
use uaop.Common.Server.{http_response, starts_with, respond, handle_connection}

abbrev pub first_of : Option Bytes → Option Bytes → Option Bytes
first_of none b = b
first_of (some a) b = some a

-- What follows the first place where a text occurs.
abbrev pub after : Bytes → Bytes → Option Bytes
after p [] = strip_prefix p []
after p (c ∷ s) = first_of (strip_prefix p (c ∷ s)) (after p s)

abbrev pub with_body : ℕ → Option Bytes → Option (ℕ × Bytes)
with_body n none = none
with_body n (some body) = some (n, body)

abbrev pub read_body : Option Bytes → Option (ℕ × Bytes)
read_body none = none
read_body (some s) = let (n, rest) = read_digits 0 s in with_body n (after (codes "\r\n\r\n") rest)

-- A client: the announced length, and what follows the empty line.
unfoldable pub read_response : Bytes → Option (ℕ × Bytes)
read_response s = read_body (after (codes "Content-Length: ") s)

abbrev headers_end : Bytes → Bytes
headers_end body = codes "\r\nConnection: close\r\n\r\n" ++ body

read_body-headers_end :
    (n : ℕ) (body : Bytes) → read_body (some (to_string n ++ headers_end body)) ≡ some (n, body)
read_body-headers_end n body = rw (read_digits-to_string n (headers_end body) (ground arith)) refl

-- The body that a request asks for.
module _ {D : Type 0} (show_double : D → Bytes) (of_count : ℕ → D) where
  abbrev pub body_for : HealthRegistry → MetricRegistry D → Bytes → Bytes
  body_for health metrics request =
      if starts_with (codes "GET /healthz") request
      then render_json health
      else if starts_with (codes "GET /metrics") request
      then render_prometheus show_double of_count metrics
      else codes "not found\n"

  read_response-respond :
      (health : HealthRegistry) (metrics : MetricRegistry D) (request : Bytes)
      → let body = body_for health metrics request in
        read_response (respond show_double of_count health metrics request)
        ≡ some (length body, body)
  unfolding read_response respond http_response to_string
  read_response-respond health metrics request =
      elim (Bool-cases (starts_with (codes "GET /healthz") request)) [
        | inl a ↦ rw a (read_body-headers_end (length (render_json health)) (render_json health))
        | inr b ↦ rw b (elim (Bool-cases (starts_with (codes "GET /metrics") request)) [
          | inl c ↦ rw c (
              read_body-headers_end (length (render_prometheus show_double of_count metrics))
                (render_prometheus show_double of_count metrics))
          | inr d ↦ rw d (read_body-headers_end 10 (codes "not found\n"))
        ])
      ]

  -- Unless nothing was received, the client reads back the body that the request, up to its first
  -- NUL, is routed to (the health report, the metrics, or the text for an unknown path), and the
  -- announced length is the length of this body.
  pub handle_connection-read :
      (health : HealthRegistry) (metrics : MetricRegistry D) (c : ℕ) (buf : Bytes)
      → let body = body_for health metrics (c_str (c ∷ buf)) in
        Option.map read_response (handle_connection show_double of_count health metrics (c ∷ buf))
        ≡ some (some (length body, body))
  unfolding handle_connection
  handle_connection-read health metrics c buf =
      ap (λ x. some x) (read_response-respond health metrics (c_str (c ∷ buf)))
