-- ===== src/Gateway/Routes/Forwarding.antt =====
-- Which requests reach the platform, and what they change.
use uaop.Base.{
  ℕ, ◌+◌, ◌≡◌, ◌⊎◌, refl, ◌∙◌, true, false, ◌++◌, Option, none, some, ltb, Bool-cases, Option-cases,
  inl, inr,
}
use uaop.Base.Text.{Bytes, codes, equal}
use uaop.Gateway.Access.{
  Payload, Claims, Jwt, Redis, Config, is_valid_role, is_revoked, split, bearer, authenticate,
  Passed, answered, next, unauthenticated, or_no_text, Response, respond, token,
}
use uaop.Gateway.Access.Tokens.{IsJwt, header_of, claims_of, authenticate-signed}
use uaop.Gateway.Routes.{
  Route, healthz, dev_login, logout, submit, fetch, unmatched, Handled, replied, submits, fetches,
  or_object, or_null, health_router, auth_router, issue_token, log_in, log_out, submit_command,
  commands_router, app,
}
use uaop.Gateway.Value.{Numbers, Value, field, is_truthy}

-- The request is handed to the platform.
abbrev pub IsForwarded : {D : Type 0} → Handled D → Type 0
IsForwarded (replied response) = ⊥
IsForwarded (submits command) = Unit
IsForwarded (fetches id) = Unit

-- The caller showed a token that checks at this time and is not revoked.
pub record Admitted {D R : Type 0} (jwt : Jwt D) (redis : Redis R) (config : Config)
    (authorization : Option Bytes) (now : ℕ) (r : R) : Type 0 where
  pub given : Bytes
  pub claims : Claims D
  pub shown : bearer (split (or_no_text authorization)) ≡ some given
  pub checks : jwt.verify given config.jwt_secret now ≡ some claims
  pub not_revoked : is_revoked redis claims.payload.jti now r ≡ false

Passed-cases :
    {D A : Type 0} (p : Passed D A)
    → ((response : Response D) × (p ≡ answered response)) ⊎ ((a : A) × (p ≡ next a))
Passed-cases (answered response) = inl (response, refl)
Passed-cases (next a) = inr (a, refl)

module _ {D R : Type 0} (num : Numbers D) (jwt : Jwt D) (redis : Redis R) (config : Config) where
  authenticate-Admitted :
      (authorization : Option Bytes) (now : ℕ) (r : R) (user : Claims D)
      → authenticate jwt redis config authorization now r ≡ next user
      → Admitted jwt redis config authorization now r
  unfolding authenticate
  authenticate-Admitted authorization now r user e =
      elim (Option-cases (bearer (split (or_no_text authorization)))) [
        | inl missing ↦ let clash = rw (missing, authenticate) at e in cc
        | inr (given, shown) ↦ elim (Option-cases (jwt.verify given config.jwt_secret now)) [
          | inl invalid ↦ let clash = rw (shown, invalid, authenticate) at e in cc
          | inr (claims, checks) ↦ elim (Bool-cases (is_revoked redis claims.payload.jti now r)) [
            | inl revoked ↦ let clash = rw (shown, checks, revoked, authenticate) at e in cc
            | inr active ↦ record {
              given = given;
              claims = claims;
              shown = shown;
              checks = checks;
              not_revoked = active;
            }
          ]
        ]
      ]

  -- What `authenticate` decides, where no router before it matches.
  app-passed :
      (route : Route D) (authorization : Option Bytes) (jti : Bytes) (now : ℕ) (r : R)
      → health_router route ≡ none
      → auth_router num jwt redis config route none jti now r ≡ none
      → IsForwarded (app num jwt redis config route authorization jti now r).1
      → Admitted jwt redis config authorization now r
        × (app num jwt redis config route authorization jti now r ≡ (r, commands_router num route))
  unfolding app
  app-passed route authorization jti now r a b forwarded =
      elim (Passed-cases (authenticate jwt redis config authorization now r)) [
        | inl (response, e) ↦ let never : ⊥ = rw (a, b, e, app) at forwarded in absurd never
        | inr (user, e) ↦ (authenticate-Admitted authorization now r user e, rw (a, b, e, app) refl)
      ]

  -- A request reaches the platform only with a bearer token that checks at this time and is not on
  -- the denylist, and then as the route for commands has it.
  pub app-Admitted :
      (route : Route D) (authorization : Option Bytes) (jti : Bytes) (now : ℕ) (r : R)
      → IsForwarded (app num jwt redis config route authorization jti now r).1
      → Admitted jwt redis config authorization now r
        × (app num jwt redis config route authorization jti now r ≡ (r, commands_router num route))
  unfolding app health_router auth_router
  app-Admitted healthz authorization jti now r forwarded = absurd forwarded
  app-Admitted (dev_login body) authorization jti now r forwarded = absurd forwarded
  app-Admitted logout authorization jti now r forwarded = absurd forwarded
  app-Admitted (submit id body key) authorization jti now r forwarded =
      app-passed (submit id body key) authorization jti now r refl refl forwarded
  app-Admitted (fetch id) authorization jti now r forwarded =
      app-passed (fetch id) authorization jti now r refl refl forwarded
  app-Admitted unmatched authorization jti now r forwarded =
      app-passed unmatched authorization jti now r refl refl forwarded

  app-state :
      (route : Route D) (authorization : Option Bytes) (jti : Bytes) (now : ℕ) (r : R)
      → health_router route ≡ none
      → auth_router num jwt redis config route none jti now r ≡ none
      → (app num jwt redis config route authorization jti now r).0 ≡ r
  unfolding app
  app-state route authorization jti now r a b =
      elim (Passed-cases (authenticate jwt redis config authorization now r)) [
        | inl (response, e) ↦ rw (a, b, e, app) refl
        | inr (user, e) ↦ rw (a, b, e, app) refl
      ]

  app-same :
      (route : Route D) (authorization : Option Bytes) (jti : Bytes) (now : ℕ) (r : R)
      → (app num jwt redis config route authorization jti now r).0 ≡ r
  unfolding app health_router auth_router log_out
  app-same healthz authorization jti now r = refl
  app-same (dev_login body) authorization jti now r = refl
  app-same logout authorization jti now r = refl
  app-same (submit id body key) authorization jti now r =
      app-state (submit id body key) authorization jti now r refl refl
  app-same (fetch id) authorization jti now r =
      app-state (fetch id) authorization jti now r refl refl
  app-same unmatched authorization jti now r = app-state unmatched authorization jti now r refl refl

  -- Whatever is asked for, the gateway leaves the denylist as it is; also a request to log out, which
  -- it always refuses.
  pub app-unchanged :
      (route : Route D) (authorization : Option Bytes) (jti : Bytes) (now : ℕ) (r : R)
      → ((app num jwt redis config route authorization jti now r).0 ≡ r)
        × (app num jwt redis config logout authorization jti now r
            ≡ (r, replied (unauthenticated (codes "not authenticated"))))
  unfolding app health_router auth_router log_out
  app-unchanged route authorization jti now r = (app-same route authorization jti now r, refl)

  -- What is signed for a body of the log-in.
  abbrev pub payload_of : Value D → Bytes → Payload D
  payload_of body jti = record {
    sub = field (codes "subject") (or_object body);
    role = field (codes "role") (or_object body);
    org = or_null (field (codes "org") (or_object body));
    jti = jti;
  }

  app-next :
      (id : Bytes) (body : Value D) (key authorization : Option Bytes) (draw : Bytes) (now : ℕ)
      (r : R) (user : Claims D)
      → authenticate jwt redis config authorization now r ≡ next user
      → app num jwt redis config (submit id body key) authorization draw now r
        ≡ (r, submit_command num id body key)
  unfolding app health_router auth_router commands_router
  app-next id body key authorization draw now r user e = rw (e, app) refl

  app-signed :
      (p : Payload D) (id : Bytes) (body : Value D) (key : Option Bytes) (draw : Bytes)
      (issued now : ℕ) (r : R)
      → IsJwt jwt p
      → ltb now (issued + config.jwt_ttl_seconds) ≡ true
      → is_revoked redis p.jti now r ≡ false
      → app num jwt redis config
          (submit id body key)
          (header_of jwt redis config p issued)
          draw
          now
          r
        ≡ (r, submit_command num id body key)
  app-signed p id body key draw issued now r h valid active =
      app-next id body key (header_of jwt redis config p issued) draw now r
        (claims_of jwt redis config p issued)
        (authenticate-signed jwt redis config p issued now r h ∙ rw valid (rw active refl))

  -- With what jsonwebtoken documents: in a development profile, logging in as a subject with a valid
  -- role changes nothing and is answered with a token; until that token expires, wherever its
  -- identifier is not on the denylist, a command sent with it is passed to its route.
  pub app-log_in :
      (credentials : Value D) (authorization : Option Bytes) (jti : Bytes) (issued : ℕ) (r : R)
      (id : Bytes) (body : Value D) (key : Option Bytes) (draw : Bytes) (now : ℕ) (later : R)
      → IsJwt jwt (payload_of credentials jti)
      → config.dev_auth ≡ some (codes "1")
      → is_truthy num (field (codes "subject") (or_object credentials)) ≡ true
      → is_valid_role (field (codes "role") (or_object credentials)) ≡ true
      → ltb now (issued + config.jwt_ttl_seconds) ≡ true
      → is_revoked redis jti now later ≡ false
      → let signed =
          jwt.sign (payload_of credentials jti) config.jwt_secret config.jwt_ttl_seconds issued in
        (app num jwt redis config (dev_login credentials) authorization jti issued r
          ≡ (r, replied (respond 200 (token signed))))
        × (app num jwt redis config
              (submit id body key)
              (some (codes "Bearer " ++ signed))
              draw
              now
              later
            ≡ (later, submit_command num id body key))
  unfolding app health_router auth_router log_in issue_token equal
  app-log_in credentials authorization jti issued r id body key draw now later h dev subject role
        valid active =
      (
        rw (dev, subject, role) refl,
        app-signed (payload_of credentials jti) id body key draw issued now later h valid active,
      )
