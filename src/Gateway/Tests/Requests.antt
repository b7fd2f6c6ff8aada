-- ===== src/Gateway/Tests/Requests.antt =====
-- Requests to the gateway, with tokens that write down their user and time, and a store of keys.
use uaop.Base.{
  ℕ, zero, suc, ap, ◌+◌, ◌≡◌, refl, false, [], ◌∷◌, ◌++◌, Option, none, some, ltb, ◌==◌,
  if◌then◌else◌, arith,
}
use uaop.Base.Lists.{All, length}
use uaop.Base.Text.{Bytes, codes, equal, equal_refl}
use uaop.Gateway.Value.{
  Value, null, text, object, member, end, property, last_member, to_text, is_truthy,
}
use uaop.Gateway.Access.{
  Payload, Claims, Jwt, Redis, Config, is_valid_role, is_revoked, revoke, authenticate, split,
  answered, unauthenticated, respond, token,
}
use uaop.Gateway.Access.Tokens.{IsJwt, IsRedis, header_of, revoke-authenticate}
use uaop.Gateway.Routes.{
  Route, dev_login, logout, submit, fetch, replied, app, command_kind, inherited, submit_command,
  commands_router, health_router, auth_router,
}
use uaop.Gateway.Routes.Forwarding.{
  Admitted, IsForwarded, payload_of, app-Admitted, app-unchanged, app-log_in,
}
use uaop.Gateway.Tests.{numbers}

abbrev pilot : Payload ℕ
pilot = record {
  sub = text (codes "ann");
  role = text (codes "PILOT");
  org = null;
  jti = codes "p1";
}

abbrev observer : Payload ℕ
observer = record {
  sub = text (codes "bob");
  role = text (codes "OBSERVER");
  org = null;
  jti = codes "q1";
}

abbrev marks : ℕ → Bytes
marks zero = []
marks (suc n) = b'*' ∷ marks n

length-marks : (n : ℕ) → length (marks n) ≡ n
length-marks zero = refl
length-marks (suc n) = ap suc (length-marks n)

marks-words : (n : ℕ) → All (λ c. (c == b' ') ≡ false) (marks n)
marks-words zero = tt
marks-words (suc n) = (refl, marks-words n)

abbrev first_byte : Bytes → ℕ
first_byte [] = 0
first_byte (c ∷ s) = c

abbrev check : Bytes → ℕ → Option (Claims ℕ)
check [] now = none
check (c ∷ s) now =
    if ltb now (length s)
    then some (record { payload = if c == b'p' then pilot else observer; exp = length s })
    else none

-- A token is the first letter of its identifier and a mark for each second up to its end.
abbrev tokens : Jwt ℕ
tokens = record {
  sign = λ p secret lifetime issued. first_byte p.jti ∷ marks (issued + lifetime);
  verify = λ signed secret now. check signed now;
}

tokens-IsJwt-pilot : IsJwt tokens pilot
tokens-IsJwt-pilot = record {
  checked = λ secret lifetime issued now. rw (length-marks (issued + lifetime)) refl;
  one_word = λ secret lifetime issued. (refl, marks-words (issued + lifetime));
  some_word = λ secret lifetime issued. refl;
}

tokens-IsJwt-observer : IsJwt tokens observer
tokens-IsJwt-observer = record {
  checked = λ secret lifetime issued now. rw (length-marks (issued + lifetime)) refl;
  one_word = λ secret lifetime issued. (refl, marks-words (issued + lifetime));
  some_word = λ secret lifetime issued. refl;
}

abbrev Store : Type 0
Store = Bytes → ℕ → Option Bytes

abbrev key_store : Redis Store
key_store = record {
  set_ex = λ key value seconds set r. (λ k now.
      if equal k key then (if ltb now (set + seconds) then some value else none) else r k now);
  get = λ key now r. r key now;
}

key_store-IsRedis : IsRedis key_store
key_store-IsRedis = record {
  kept = λ key value seconds set now r. rw (equal_refl key) refl;
  others = λ other key value seconds set now r differs. rw differs refl;
}

abbrev empty_store : Store
empty_store k now = none

abbrev config : Config
config = record { jwt_secret = codes "s"; jwt_ttl_seconds = 60; dev_auth = some (codes "1") }

revoke-authenticate_example :
    let after = revoke key_store (codes "p1") 45 20 empty_store in
    (authenticate tokens key_store config (header_of tokens key_store config pilot 5) 40 after
      ≡ answered (unauthenticated (codes "token revoked")))
    × (authenticate tokens key_store config (header_of tokens key_store config observer 6) 40 after
        ≡ authenticate tokens key_store config
            (header_of tokens key_store config observer 6)
            40
            empty_store)
revoke-authenticate_example =
    revoke-authenticate tokens key_store config pilot observer 5 6 20 45 40 empty_store
      tokens-IsJwt-pilot tokens-IsJwt-observer key_store-IsRedis (unfold equal in refl)
      (omega arith) (omega arith)

abbrev arm : Value ℕ
arm = object (member (codes "command") (text (codes "ARM")) end)

abbrev credentials : Value ℕ
credentials = object (
    member (codes "subject") (text (codes "ann"))
      (member (codes "role") (text (codes "PILOT")) end))

app-log_in_example :
    let signed =
      tokens.sign
        (payload_of numbers tokens key_store config credentials (codes "p1"))
        (codes "s")
        60
        5 in
    (app numbers tokens key_store config (dev_login credentials) none (codes "p1") 5 empty_store
      ≡ (empty_store, replied (respond 200 (token signed))))
    × (app numbers tokens key_store config
          (submit (codes "v1") arm none)
          (some (codes "Bearer " ++ signed))
          (codes "u")
          40
          empty_store
        ≡ (empty_store, submit_command numbers (codes "v1") arm none))
app-log_in_example =
    app-log_in numbers tokens key_store config credentials none (codes "p1") 5 empty_store
      (codes "v1") arm none (codes "u") 40 empty_store
      (unfold property last_member equal in tokens-IsJwt-pilot) refl
      (unfold property last_member equal is_truthy in refl)
      (unfold property last_member equal is_valid_role in refl) (ground arith)
      (unfold is_revoked in refl)

app-unchanged_example :
    ((app numbers tokens key_store config (fetch (codes "c1")) none (codes "u") 40 empty_store).0
      ≡ empty_store)
    × (app numbers tokens key_store config logout none (codes "u") 40 empty_store
        ≡ (empty_store, replied (unauthenticated (codes "not authenticated"))))
app-unchanged_example =
    app-unchanged numbers tokens key_store config (fetch (codes "c1")) none (codes "u") 40
      empty_store

abbrev arm_it : Route ℕ
arm_it = submit (codes "v1") arm none

arm_it-IsForwarded :
    IsForwarded
      (app numbers tokens key_store config arm_it
        (header_of tokens key_store config observer 6)
        (codes "u")
        40
        empty_store).1
unfolding app health_router auth_router commands_router submit_command authenticate is_revoked split
    equal property last_member command_kind to_text
arm_it-IsForwarded = tt

app-Admitted_example :
    Admitted tokens key_store config (header_of tokens key_store config observer 6) 40 empty_store
    × (app numbers tokens key_store config arm_it
          (header_of tokens key_store config observer 6)
          (codes "u")
          40
          empty_store
        ≡ (empty_store, commands_router numbers arm_it))
app-Admitted_example =
    app-Admitted numbers tokens key_store config arm_it
      (header_of tokens key_store config observer 6) (codes "u") 40 empty_store arm_it-IsForwarded

command_kind-constructor :
    command_kind (codes "constructor") ≡ some (inherited (codes "constructor"))
unfolding command_kind equal
command_kind-constructor = refl
