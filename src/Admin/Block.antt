-- ===== src/Admin/Block.antt =====
-- On blocking (src/admin/admin.service.ts) and the doors that it is to shut.
use intaektok_be.Prelude.{
  Bool, true, false, some, ◌∷◌, Ident, ◌==◌, opt_eq, find, update_where, ◌≡◌, refl, ap, ◌∙◌, inl,
  inr, arith, Bool-cases, Option-cases, ==_refl, find-holds, find-update_where,
  find-update_where_kept,
}
use intaektok_be.Prisma.{User, UserStatus, Whitelist, WhitelistStatus, is_blocked}
use intaektok_be.Common.Errors.{Error}
use intaektok_be.Common.Events.{session_revoked}
use intaektok_be.World.{World, Result, ok, err}
use intaektok_be.Env.{Env}
use intaektok_be.Auth.Jwt.{Jwt, TokenPayload, is_access, is_refresh}
use intaektok_be.Auth.Kakao.{KakaoUserInfo}
use intaektok_be.Auth.Session.{
  find_user, is_inactive, drop_refresh, refresh_verified, revoke_all_sessions,
}
use intaektok_be.Auth.Session.Rotation.{NoSessions}
use intaektok_be.Auth.Login.{find_whitelist, find_kakao, admit_identity}
use intaektok_be.Auth.Login.Gate.{admit_identity_blocked}
use intaektok_be.Auth.Guards.{validate_token}
use intaektok_be.Admin.{
  UpdateWhitelistDto, update, is_entry, patched, set_status, with_status, enforce_block,
}

-- The user is suspended, has no live refresh token, and the order to close its sockets is out.
abbrev pub IsOut : Ident → World → World → Type 0
IsOut user before after =
    ((u : User) × (find_user user after ≡ some u) × (u.status ≡ UserStatus.suspended))
    × NoSessions user after
    × (after.events ≡ session_revoked user ∷ before.events)

abbrev blocked : User → World → World
blocked u w = record (drop_refresh u.id (set_status u.id UserStatus.suspended w)) {
  events = session_revoked u.id ∷ w.events;
}

enforce_block_lem :
    (x : Whitelist) (k : Ident) (u : User) (w : World)
    → x.kakao_id ≡ some k
    → (k == 0) ≡ false
    → find_kakao k w ≡ some u
    → enforce_block x w ≡ (ok tt, blocked u w)
unfolding enforce_block
enforce_block_lem x k u w named k0 account = rw (named, k0, account) refl

abbrev noted_down : Ident → UpdateWhitelistDto → World → World
noted_down id dto w = record w { whitelist = update_where (is_entry id) (patched dto) w.whitelist }

update_lem :
    (id : Ident) (dto : UpdateWhitelistDto) (x : Whitelist) (w v : World)
    → find (is_entry id) w.whitelist ≡ some x
    → dto.status ≡ some (some WhitelistStatus.blocked)
    → enforce_block (patched dto x) (noted_down id dto w) ≡ (ok tt, v)
    → update id dto w ≡ (ok (patched dto x), v)
unfolding update
update_lem id dto x w v found status e = ground (arith, found, status, e)

module _ (id k : Ident) (dto : UpdateWhitelistDto) (x : Whitelist) (u : User) (w : World) where
  -- Setting the entry of an identity that has an account to BLOCKED suspends its user, ends every
  -- session of the user and orders its sockets closed, and the identity's entry is a blocked one.
  pub update_blocks :
      find (is_entry id) w.whitelist ≡ some x
      → find_whitelist k w ≡ some x
      → (k == 0) ≡ false
      → find_kakao k w ≡ some u
      → find_user u.id w ≡ some u
      → dto.status ≡ some (some WhitelistStatus.blocked)
      → ((update id dto w).0 ≡ ok (patched dto x))
        × IsOut u.id w (update id dto w).1
        × (find_whitelist k (update id dto w).1 ≡ some (patched dto x))
        × (is_blocked (patched dto x).status ≡ true)
  update_blocks found entry k0 account user status =
      rw
        (update_lem id dto x w (blocked u (noted_down id dto w)) found status
          (enforce_block_lem (patched dto x) k u (noted_down id dto w) kakao k0 account))
        (
          refl,
          (
            (
              with_status UserStatus.suspended u,
              find-update_where is_user (with_status UserStatus.suspended) w.users u (λ y e. e)
                  user,
              refl,
            ),
            (λ j. rw (==_refl u.id) refl),
            refl,
          ),
          find-update_where_kept (is_entry id) is_named (patched dto) w.whitelist x (λ y. refl)
                entry
              ∙ rw (find-holds (is_entry id) w.whitelist x found) refl,
          rw status refl,
        )
    where
      is_user : User → Bool
      is_user y = y.id == u.id

      is_named : Whitelist → Bool
      is_named y = opt_eq y.kakao_id (some k)

      kakao : x.kakao_id ≡ some k
      kakao = elim (Option-cases x.kakao_id) [
        | inl e ↦ ground (arith, e, find-holds is_named w.whitelist x entry)
        | inr (a, e) ↦ ground (arith, e, find-holds is_named w.whitelist x entry)
      ]

-- The call throws.
abbrev pub Refused : {A : Type 0} → Result A × World → Type 0
Refused r = (e : Error) × (r.0 ≡ err e)

module _ (user : Ident) (w v : World) where
  validate_token-Refused :
      (p : TokenPayload) → p.sub ≡ user → IsOut user w v → Refused (validate_token p v)
  unfolding validate_token
  validate_token-Refused p e ((u, f, s), _, _) = elim (Bool-cases (is_access p.kind)) [
    | inl a ↦ rw (a, suspended) (_, refl)
    | inr a ↦ rw a (_, refl)
  ]
    where
      suspended : is_inactive (find_user p.sub v) ≡ true
      suspended = ap (λ i. is_inactive (find_user i v)) e ∙ rw (f, s) refl

  pub refresh_verified-Refused :
      (jwt : Jwt) (p : TokenPayload)
      → p.sub ≡ user
      → IsOut user w v
      → Refused (refresh_verified jwt p v)
  unfolding refresh_verified revoke_all_sessions
  refresh_verified-Refused jwt p e (_, n, _) = elim (Bool-cases (is_refresh p.kind)) [
    | inl a ↦ rw (a, e, n p.jti) (_, refl)
    | inr a ↦ rw a (_, refl)
  ]

module _ (env : Env) (jwt : Jwt) (id k : Ident) (dto : UpdateWhitelistDto) (x : Whitelist)
    (u : User) (w : World) where
  -- Once the entry of an identity that has an account has been set to BLOCKED, no access token of its user is
  -- accepted, no refresh token of the user is exchanged, and the identity cannot log in again.
  pub update_shuts_out :
      find (is_entry id) w.whitelist ≡ some x
      → find_whitelist k w ≡ some x
      → (k == 0) ≡ false
      → find_kakao k w ≡ some u
      → find_user u.id w ≡ some u
      → dto.status ≡ some (some WhitelistStatus.blocked)
      → ((p : TokenPayload)
          → p.sub ≡ u.id
          → Refused (validate_token p (update id dto w).1)
            × Refused (refresh_verified jwt p (update id dto w).1))
        × ((info : KakaoUserInfo)
            → info.kakao_id ≡ k
            → Refused (admit_identity env jwt info (update id dto w).1))
  update_shuts_out found entry k0 account user status =
      let (_, out, still, shut) = update_blocks id k dto x u w found entry k0 account user status in
      (
        (λ p e. (
          validate_token-Refused u.id w (update id dto w).1 p e out,
          refresh_verified-Refused u.id w (update id dto w).1 jwt p e out,
        )),
        λ info e. (
          _,
          ap (λ r. r.0)
              (admit_identity_blocked env jwt info (update id dto w).1 (patched dto x)
                (ap (λ i. find_whitelist i (update id dto w).1) e ∙ still) shut),
        ),
      )
