-- ===== src/Auth/Session/Rotation.antt =====
-- On the rotation and revocation of refresh tokens (src/auth/auth.service.ts).
use intaektok_be.Prelude.{
  Bool, true, false, some, Ident, Text, ◌==◌, if◌then◌else◌, ◌≡◌, refl, arith, ◌∙◌, ◌&&◌,
}
use intaektok_be.Common.Errors.{unauthorized}
use intaektok_be.World.{World, ok, err}
use intaektok_be.Auth.Jwt.{Jwt, TokenPayload, is_refresh}
use intaektok_be.Auth.Session.{
  TokenPair, refresh, refresh_verified, issue_tokens, revoke_all_sessions, is_inactive, find_user,
  refresh_payload,
}

-- The user has no live refresh token.
abbrev pub NoSessions : Ident → World → Type 0
NoSessions user w = (j : Ident) → w.refresh user j ≡ false

-- The state after one `jti` of a user is used up and another one issued.
abbrev pub rotated : Ident → Ident → Ident → World → Ident → Ident → Bool
rotated user old new w u j =
    if u == user && j == new then true else if u == user && j == old then false else w.refresh u j

module _ (jwt : Jwt) (token : Text) (p : TokenPayload) (w : World) where
  -- A refresh with a verified refresh token whose `jti` is live and whose user is active returns a new
  -- pair of tokens; afterwards the old `jti` is dead, the new one is live, and every other is as it was.
  pub refresh_rotates :
      jwt.verify_refresh token ≡ some p
      → is_refresh p.kind ≡ true
      → w.refresh p.sub p.jti ≡ true
      → is_inactive (find_user p.sub w) ≡ false
      → (t : TokenPair) × ((refresh jwt token w).0 ≡ ok t)
        × (t.refresh_token ≡ jwt.sign_refresh (refresh_payload p.sub (jwt.new_jti w.issued)))
        × ((u j : Ident)
            → (((refresh jwt token w).1).refresh u j)
              ≡ rotated p.sub p.jti (jwt.new_jti w.issued) w u j)
  unfolding refresh refresh_verified issue_tokens
  refresh_rotates v k live active = rw (v, k, live, active) (_, refl, refl, λ u j. refl)

  -- A verified refresh token whose `jti` is not live is refused, and every session of its user ends;
  -- those of the other users go on.
  pub refresh_reused :
      jwt.verify_refresh token ≡ some p
      → is_refresh p.kind ≡ true
      → w.refresh p.sub p.jti ≡ false
      → ((refresh jwt token w).0 ≡ err (unauthorized "만료되었거나 이미 사용된 리프레시 토큰입니다."))
        × NoSessions p.sub (refresh jwt token w).1
        × ((u j : Ident)
            → (u == p.sub) ≡ false
            → ((refresh jwt token w).1).refresh u j ≡ w.refresh u j)
  unfolding refresh refresh_verified revoke_all_sessions
  refresh_reused v k dead = rw (v, k, dead) (refl, (λ j. ground arith), λ u j e. ground (arith, e))

module _ (jwt : Jwt) (token : Text) (p : TokenPayload) (w : World) where
  -- A refresh token is good for one refresh: after a refresh that succeeds, the same token is refused
  -- and every session of its user ends, the one just issued too. The new `jti` is assumed to differ
  -- from the old one.
  pub refresh_replayed :
      jwt.verify_refresh token ≡ some p
      → is_refresh p.kind ≡ true
      → w.refresh p.sub p.jti ≡ true
      → is_inactive (find_user p.sub w) ≡ false
      → (p.jti == jwt.new_jti w.issued) ≡ false
      → ((refresh jwt token (refresh jwt token w).1).0
          ≡ err (unauthorized "만료되었거나 이미 사용된 리프레시 토큰입니다."))
        × NoSessions p.sub (refresh jwt token (refresh jwt token w).1).1
  refresh_replayed v k live active fresh =
      let (_, _, _, after) = refresh_rotates jwt token p w v k live active in
      let (e, n, _) =
        refresh_reused jwt token p (refresh jwt token w).1 v k
          (after p.sub p.jti ∙ ground (arith, fresh)) in
      (e, n)
