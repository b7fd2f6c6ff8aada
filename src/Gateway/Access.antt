-- ===== src/Gateway/Access.antt =====
-- backend/api-gateway/src/auth, src/routes and the chain that src/index.js builds of them: who may
-- send commands. Tokens are signed and checked by jsonwebtoken, the denylist is kept by Redis, and
-- Express matches methods and paths. The time is in seconds, `Math.floor(Date.now() / 1000)`.
pub mod Tokens
use uaop.Base.{
  ℕ, ◌+◌, ◌-◌, Bool, true, false, not, ◌||◌, List, [], ◌∷◌, ◌++◌, Option, none, some, ltb, ◌==◌,
  if◌then◌else◌,
}
use uaop.Base.Text.{Bytes, codes, equal, is_empty}
use uaop.Gateway.Value.{
  Numbers, Value, undefined, null, text, object, end, property, is_text, to_text, is_truthy,
}

-- What `issueToken` signs, and what a check yields: the expiry is added when signing.
pub record Payload (D : Type 0) : Type 0 where
  pub sub : Value D
  pub role : Value D
  pub org : Value D
  pub jti : Bytes

pub record Claims (D : Type 0) : Type 0 where
  pub payload : Payload D
  pub exp : ℕ

-- jsonwebtoken with HS256: signing with a secret and a lifetime, and checking.
pub record Jwt (D : Type 0) : Type 0 where
  pub sign : Payload D → Bytes → ℕ → ℕ → Bytes
  pub verify : Bytes → Bytes → ℕ → Option (Claims D)

-- The two commands of Redis: `SET key value EX seconds` and `GET key`, each at a time.
pub record Redis (R : Type 0) : Type 0 where
  pub set_ex : Bytes → Bytes → ℕ → ℕ → R → R
  pub get : Bytes → ℕ → R → Option Bytes

pub record Config : Type 0 where
  pub jwt_secret : Bytes
  pub jwt_ttl_seconds : ℕ
  pub dev_auth : Option Bytes

abbrev roles : List Bytes
roles =
    codes "PLATFORM_ADMIN"
    ∷ codes "ORG_ADMIN"
    ∷ codes "FLEET_MANAGER"
    ∷ codes "PILOT"
    ∷ codes "OBSERVER"
    ∷ codes "MAINTENANCE"
    ∷ []

abbrev includes : {D : Type 0} → List Bytes → Value D → Bool
includes [] v = false
includes (s ∷ names) v = is_text s v || includes names v

unfoldable pub is_valid_role : {D : Type 0} → Value D → Bool
is_valid_role role = includes roles role

abbrev pub key_prefix : Bytes
key_prefix = codes "uaop:gw:denylist:"

module _ {R : Type 0} (redis : Redis R) where
  -- A lifetime below 0 is one of 0 here, and `revoke` treats both alike.
  unfoldable pub revoke : Bytes → ℕ → ℕ → R → R
  revoke jti ttl_seconds now r =
      if ltb 0 ttl_seconds
      then redis.set_ex (key_prefix ++ jti) (codes "1") ttl_seconds now r
      else r

  unfoldable pub is_revoked : Bytes → ℕ → R → Bool
  is_revoked jti now r = elim (redis.get (key_prefix ++ jti) now r) [
    | none ↦ false
    | some value ↦ true
  ]

-- `s.split(' ')`
abbrev onto_first : ℕ → List Bytes → List Bytes
onto_first c [] = (c ∷ []) ∷ []
onto_first c (word ∷ words) = (c ∷ word) ∷ words

unfoldable pub split : Bytes → List Bytes
split [] = [] ∷ []
split (c ∷ s) = let words = split s in if c == b' ' then [] ∷ words else onto_first c words

-- The body of an answer; an error has its code and its message.
pub data Body (D : Type 0) : Type 0 where
  error : Bytes → Bytes → Body D
  token : Bytes → Body D
  correlation_id : Bytes → Body D
  result : Value D → Body D
  status_ok : Body D
  empty : Body D
  error_page : Body D

pub record Response (D : Type 0) : Type 0 where
  pub status : ℕ
  pub body : Body D

abbrev pub respond : {D : Type 0} → ℕ → Body D → Response D
respond status body = record { status = status; body = body }

abbrev pub unauthenticated : {D : Type 0} → Bytes → Response D
unauthenticated message = respond 401 (error (codes "ERROR_CODE_UNAUTHENTICATED") message)

-- How a middleware ends: with an answer, or with what it passes on to the next.
pub data Passed (D A : Type 0) : Type 0 where
  answered : Response D → Passed D A
  next : A → Passed D A

-- The words of the header after `?? ''`, as far as they are read.
abbrev pub bearer : List Bytes → Option Bytes
bearer (scheme ∷ given ∷ words) =
    if equal scheme (codes "Bearer") then (if is_empty given then none else some given) else none
bearer words = none

abbrev pub or_no_text : Option Bytes → Bytes
or_no_text none = []
or_no_text (some s) = s

module _ {D R : Type 0} (jwt : Jwt D) (redis : Redis R) (config : Config) where
  -- `req.user` is the claims of the token.
  unfoldable pub authenticate : Option Bytes → ℕ → R → Passed D (Claims D)
  authenticate header now r = elim (bearer (split (or_no_text header))) [
    | none ↦ answered (unauthenticated (codes "missing bearer token"))
    | some given ↦ elim (jwt.verify given config.jwt_secret now) [
      | none ↦ answered (unauthenticated (codes "invalid or expired token"))
      | some claims ↦
          if is_revoked redis claims.payload.jti now r
          then answered (unauthenticated (codes "token revoked"))
          else next claims
    ]
  ]

abbrev pub has_role : {D : Type 0} → List Bytes → Option (Claims D) → Bool
has_role allowed none = false
has_role allowed (some user) = includes allowed user.payload.role

unfoldable pub require_role :
    {D : Type 0} → List Bytes → Option (Claims D) → Passed D (Option (Claims D))
require_role allowed user =
    if has_role allowed user
    then next user
    else answered (
        respond 403 (
          error (codes "ERROR_CODE_PERMISSION_DENIED") (codes "role not permitted for this route")))
