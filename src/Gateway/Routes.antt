-- ===== src/Gateway/Routes.antt =====
-- backend/api-gateway/src/routes and src/index.js: the routes, and the chain of middlewares that the
-- gateway passes every request through. The gRPC call of a command is what a handler ends with; the
-- answer follows when the call is done.
pub mod Forwarding
use uaop.Base.{
  ℕ, Bool, true, false, not, ◌&&◌, ◌||◌, List, [], ◌∷◌, ◌++◌, Option, none, some, ◌-◌,
  if◌then◌else◌,
}
use uaop.Base.Text.{Bytes, codes, equal}
use uaop.Gateway.Access.{
  Payload, Claims, Jwt, Redis, Config, is_valid_role, revoke, Body, error, token, correlation_id,
  result, status_ok, empty, error_page, Response, respond, unauthenticated, Passed, answered, next,
  authenticate, or_no_text,
}
use uaop.Gateway.Value.{Numbers, Value, undefined, null, object, end, field, to_text, is_truthy}

-- A request as Express routes it, with the parts that its handler reads.
pub data Route (D : Type 0) : Type 0 where
  healthz : Route D
  dev_login : Value D → Route D
  logout : Route D
  submit : Bytes → Value D → Option Bytes → Route D
  fetch : Bytes → Route D
  unmatched : Route D

-- A kind of `REST_TO_COMMAND_KIND`, or what the table inherits from `Object.prototype`.
pub data CommandKind : Type 0 where
  kind : Bytes → CommandKind
  inherited : Bytes → CommandKind

pub record CommandRequest (D : Type 0) : Type 0 where
  pub vehicle_id : Bytes
  pub command : CommandKind
  pub params : Value D
  pub idempotency_key : Bytes

pub data Handled (D : Type 0) : Type 0 where
  replied : Response D → Handled D
  submits : CommandRequest D → Handled D
  fetches : Bytes → Handled D

abbrev is_one_of : List Bytes → Bytes → Bool
is_one_of [] s = false
is_one_of (name ∷ names) s = equal s name || is_one_of names s

abbrev commands : List Bytes
commands =
    codes "ARM"
    ∷ codes "DISARM"
    ∷ codes "MODE"
    ∷ codes "RTL"
    ∷ codes "TAKEOFF"
    ∷ codes "LAND"
    ∷ codes "MISSION_START"
    ∷ []

abbrev prototype_names : List Bytes
prototype_names =
    codes "constructor"
    ∷ codes "__defineGetter__"
    ∷ codes "__defineSetter__"
    ∷ codes "hasOwnProperty"
    ∷ codes "__lookupGetter__"
    ∷ codes "__lookupSetter__"
    ∷ codes "isPrototypeOf"
    ∷ codes "propertyIsEnumerable"
    ∷ codes "toString"
    ∷ codes "valueOf"
    ∷ codes "__proto__"
    ∷ codes "toLocaleString"
    ∷ []

-- `REST_TO_COMMAND_KIND[command]`
unfoldable pub command_kind : Bytes → Option CommandKind
command_kind command =
    if is_one_of commands command
    then some (kind (codes "COMMAND_KIND_" ++ command))
    else if is_one_of prototype_names command
    then some (inherited command)
    else none

-- `v ?? {}`
abbrev pub or_object : {D : Type 0} → Value D → Value D
or_object undefined = object end
or_object null = object end
or_object v = v

abbrev pub or_null : {D : Type 0} → Value D → Value D
or_null undefined = null
or_null v = v

abbrev pub invalid_argument : {D : Type 0} → Bytes → Response D
invalid_argument message = respond 400 (error (codes "ERROR_CODE_INVALID_ARGUMENT") message)

abbrev pub unavailable : {D : Type 0} → Bytes → Response D
unavailable message = respond 502 (error (codes "ERROR_CODE_UNAVAILABLE") message)

unfoldable pub health_router : {D : Type 0} → Route D → Option (Response D)
health_router healthz = some (respond 200 status_ok)
health_router route = none

module _ {D : Type 0} (num : Numbers D) where
  unfoldable pub submit_command : Bytes → Value D → Option Bytes → Handled D
  submit_command id body key = elim (to_text num (field (codes "command") (or_object body))) [
    | none ↦ replied (respond 500 error_page)
    | some command ↦ elim (command_kind command) [
      | none ↦ replied (invalid_argument (codes "unknown command: " ++ command))
      | some found ↦ submits (record {
        vehicle_id = id;
        command = found;
        params = or_object (field (codes "params") (or_object body));
        idempotency_key = or_no_text key;
      })
    ]
  ]

  unfoldable pub commands_router : Route D → Handled D
  commands_router (submit id body key) = submit_command id body key
  commands_router (fetch id) = fetches id
  commands_router route = replied (respond 404 error_page)

module _ {D R : Type 0} (redis : Redis R) where
  unfoldable pub log_out : Option (Claims D) → ℕ → R → R × Response D
  log_out none now r = (r, unauthenticated (codes "not authenticated"))
  log_out (some user) now r =
      (revoke redis user.payload.jti (user.exp - now) now r, respond 204 empty)

module _ {D R : Type 0} (num : Numbers D) (jwt : Jwt D) (redis : Redis R) (config : Config) where
  -- The UUID drawn for the token is an argument; `none` is the error thrown.
  unfoldable pub issue_token : Value D → Value D → Value D → Bytes → ℕ → Option (Bytes × Bytes)
  issue_token subject role org jti now =
      if is_valid_role role
      then some (
        jwt.sign (record { sub = subject; role = role; org = or_null org; jti = jti })
            config.jwt_secret config.jwt_ttl_seconds now,
        jti,
      )
      else none

  abbrev is_dev : Option Bytes → Bool
  is_dev none = false
  is_dev (some flag) = equal flag (codes "1")

  unfoldable pub log_in : Value D → Bytes → ℕ → Response D
  log_in body jti now =
      let subject = field (codes "subject") (or_object body) in
      let role = field (codes "role") (or_object body) in
      let org = field (codes "org") (or_object body) in
      if not (is_dev config.dev_auth)
      then respond 404 (error (codes "ERROR_CODE_NOT_FOUND") (codes "not found"))
      else if not (is_truthy num subject) || not (is_valid_role role)
      then invalid_argument (codes "subject and a valid role are required")
      else elim (issue_token subject role org jti now) [
        | none ↦ respond 500 error_page
        | some (signed, id) ↦ respond 200 (token signed)
      ]

  -- What the router makes of a request with this `req.user`, where a route matches.
  unfoldable pub auth_router : Route D → Option (Claims D) → Bytes → ℕ → R → Option (R × Response D)
  auth_router (dev_login body) user jti now r = some (r, log_in body jti now)
  auth_router logout user jti now r = some (log_out redis user now r)
  auth_router route user jti now r = none

  -- The chain of `startGateway`: `req.user` is set by `authenticate`, behind the first two routers.
  unfoldable pub app : Route D → Option Bytes → Bytes → ℕ → R → R × Handled D
  app route authorization jti now r = elim (health_router route) [
    | some response ↦ (r, replied response)
    | none ↦ elim (auth_router route none jti now r) [
      | some (after, response) ↦ (after, replied response)
      | none ↦ elim (authenticate jwt redis config authorization now r) [
        | answered response ↦ (r, replied response)
        | next user ↦ (r, commands_router num route)
      ]
    ]
  ]

-- How a gRPC call ends: with the message of an error, or with a response.
pub data Reply (A : Type 0) : Type 0 where
  failed : Bytes → Reply A
  completed : A → Reply A

unfoldable pub submitted : {D : Type 0} → Reply Bytes → Response D
submitted (failed message) = unavailable (codes "command forwarding failed: " ++ message)
submitted (completed id) = respond 202 (correlation_id id)

unfoldable pub fetched : {D : Type 0} → Reply (Value D) → Response D
fetched (failed message) = unavailable (codes "command result fetch failed: " ++ message)
fetched (completed found) = respond 200 (result found)
