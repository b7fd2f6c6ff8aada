-- ===== src/Gateway/Access/Tokens.antt =====
-- The life of a token: it is accepted until it expires or is revoked.
use uaop.Base.{
  ℕ, ◌+◌, ◌≤◌, ◌≡◌, refl, sym, ◌∙◌, true, false, [], ◌∷◌, ◌++◌, Option, none, some, ltb, ◌==◌,
  if◌then◌else◌, Bool-cases, inl, inr, arith,
}
use uaop.Base.Lists.{All}
use uaop.Base.Text.{Bytes, codes, equal, is_empty}
use uaop.Gateway.Access.{
  Payload, Claims, Jwt, Redis, Config, revoke, is_revoked, key_prefix, split, bearer, authenticate,
  answered, next, unauthenticated,
}

-- What jsonwebtoken documents, for one payload: the token signed of it checks until its lifetime is
-- over, with the same secret, and a token in its compact form is one word.
pub record IsJwt {D : Type 0} (jwt : Jwt D) (p : Payload D) : Type 0 where
  pub checked :
      (secret : Bytes) (lifetime issued now : ℕ)
      → jwt.verify (jwt.sign p secret lifetime issued) secret now ≡ (
          if ltb now (issued + lifetime)
          then some (record { payload = p; exp = issued + lifetime })
          else none)
  pub one_word :
      (secret : Bytes) (lifetime issued : ℕ)
      → All (λ c. (c == b' ') ≡ false) (jwt.sign p secret lifetime issued)
  pub some_word :
      (secret : Bytes) (lifetime issued : ℕ) → is_empty (jwt.sign p secret lifetime issued) ≡ false

-- What Redis documents: a key that was set is there until its time is over, and setting a key
-- leaves the others as they are.
pub record IsRedis {R : Type 0} (redis : Redis R) : Type 0 where
  pub kept :
      (key value : Bytes) (seconds set now : ℕ) (r : R)
      → redis.get key now (redis.set_ex key value seconds set r)
        ≡ (if ltb now (set + seconds) then some value else none)
  pub others :
      (other key value : Bytes) (seconds set now : ℕ) (r : R)
      → equal other key ≡ false
      → redis.get other now (redis.set_ex key value seconds set r) ≡ redis.get other now r

split-word : (s : Bytes) → All (λ c. (c == b' ') ≡ false) s → split s ≡ s ∷ []
unfolding split
split-word [] h = refl
split-word (c ∷ s) h = rw (split-word s h.1) (rw h.0 refl)

bearer-split :
    (s : Bytes)
    → All (λ c. (c == b' ') ≡ false) s
    → is_empty s ≡ false
    → bearer (split (codes "Bearer " ++ s)) ≡ some s
unfolding split equal
bearer-split s words some_word = rw (split-word s words) (rw some_word refl)

key_prefix-equal : (a b : Bytes) → equal (key_prefix ++ a) (key_prefix ++ b) ≡ equal a b
unfolding equal
key_prefix-equal a b = refl

module _ {D R : Type 0} (jwt : Jwt D) (redis : Redis R) (config : Config) where
  -- The header of a token signed at a time.
  abbrev pub header_of : Payload D → ℕ → Option Bytes
  header_of p issued =
      some (codes "Bearer " ++ jwt.sign p config.jwt_secret config.jwt_ttl_seconds issued)

  abbrev pub claims_of : Payload D → ℕ → Claims D
  claims_of p issued = record { payload = p; exp = issued + config.jwt_ttl_seconds }

  -- What `authenticate` answers to a token signed at a time.
  pub authenticate-signed :
      (p : Payload D) (issued now : ℕ) (r : R)
      → IsJwt jwt p
      → authenticate jwt redis config (header_of p issued) now r ≡ (
          if ltb now (issued + config.jwt_ttl_seconds)
          then (if is_revoked redis p.jti now r
              then answered (unauthenticated (codes "token revoked"))
              else next (claims_of p issued))
          else answered (unauthenticated (codes "invalid or expired token")))
  unfolding authenticate split is_revoked
  authenticate-signed p issued now r h =
      let signed = jwt.sign p config.jwt_secret config.jwt_ttl_seconds issued in
      let read =
        bearer-split signed (h.one_word config.jwt_secret config.jwt_ttl_seconds issued)
          (h.some_word config.jwt_secret config.jwt_ttl_seconds issued) in
      rw (read, h.checked config.jwt_secret config.jwt_ttl_seconds issued now)
        (elim (Bool-cases (ltb now (issued + config.jwt_ttl_seconds))) [
          | inl valid ↦ rw valid refl
          | inr expired ↦ rw expired refl
        ])

  is_revoked-revoke :
      (p : Payload D) (issued at seconds now : ℕ) (r : R)
      → IsRedis redis
      → issued + config.jwt_ttl_seconds ≤ at + seconds
      → ltb now (issued + config.jwt_ttl_seconds) ≡ true
      → at ≤ now
      → is_revoked redis p.jti now (revoke redis p.jti seconds at r) ≡ true
  unfolding is_revoked revoke
  is_revoked-revoke p issued at seconds now r h covers valid later =
      let some_time : ltb 0 seconds ≡ true = ground (arith, covers, valid, later) in
      let until : ltb now (at + seconds) ≡ true = ground (arith, covers, valid, later) in
      rw some_time
        (rw (h.kept (key_prefix ++ p.jti) (codes "1") seconds at now r, is_revoked) (rw until refl))

  is_revoked-revoke_other :
      (p : Payload D) (at seconds now : ℕ) (r : R) (other : Bytes)
      → IsRedis redis
      → equal other p.jti ≡ false
      → is_revoked redis other now (revoke redis p.jti seconds at r) ≡ is_revoked redis other now r
  unfolding is_revoked revoke
  is_revoked-revoke_other p at seconds now r other h differs = elim (Bool-cases (ltb 0 seconds)) [
    | inl some_time ↦ rw some_time (
        rw
          (
            h.others (key_prefix ++ other) (key_prefix ++ p.jti) (codes "1") seconds at now r
                (key_prefix-equal other p.jti ∙ differs),
            is_revoked,
          )
          refl)
    | inr no_time ↦ rw no_time refl
  ]

  -- With what jsonwebtoken and Redis document: after a call of `Denylist.revoke` for the identifier
  -- of a token, for at least what is left of its lifetime, `authenticate` refuses that token at
  -- every later time, as revoked until it expires and as expired from then on, and accepts or
  -- refuses a token with another identifier as it would have without the call.
  pub revoke-authenticate :
      (p q : Payload D) (issued q_issued at seconds now : ℕ) (r : R)
      → IsJwt jwt p
      → IsJwt jwt q
      → IsRedis redis
      → equal q.jti p.jti ≡ false
      → issued + config.jwt_ttl_seconds ≤ at + seconds
      → at ≤ now
      → let after = revoke redis p.jti seconds at r in
        (authenticate jwt redis config (header_of p issued) now after ≡ (
          if ltb now (issued + config.jwt_ttl_seconds)
          then answered (unauthenticated (codes "token revoked"))
          else answered (unauthenticated (codes "invalid or expired token"))))
        × (authenticate jwt redis config (header_of q q_issued) now after
            ≡ authenticate jwt redis config (header_of q q_issued) now r)
  revoke-authenticate p q issued q_issued at seconds now r j q_j k differs covers later =
      let after = revoke redis p.jti seconds at r in
      (
        authenticate-signed p issued now after j
            ∙ elim (Bool-cases (ltb now (issued + config.jwt_ttl_seconds))) [
              | inl valid ↦
                  rw valid
                    (rw (is_revoked-revoke p issued at seconds now r k covers valid later) refl)
              | inr expired ↦ rw expired refl
            ],
        authenticate-signed q q_issued now after q_j
            ∙ rw (is_revoked-revoke_other p at seconds now r q.jti k differs)
                (sym (authenticate-signed q q_issued now r q_j)),
      )
