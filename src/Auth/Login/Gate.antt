-- ===== src/Auth/Login/Gate.antt =====
-- On the gate of `kakaoLogin` (src/auth/auth.service.ts).
use intaektok_be.Prelude.{
  ℕ, Bool, true, false, none, some, List, Ident, ◌==◌, find, is_some, ◌≡◌, refl, ◌∙◌, ◌⊎◌, inl, inr,
  arith, Bool-cases, Option-cases, ==_refl, find-update_where,
}
use intaektok_be.Prisma.{User, UserStatus, Whitelist, AccessRequest, is_blocked, is_invited}
use intaektok_be.Common.Errors.{not_allowed}
use intaektok_be.World.{World, Result, ok, err, ◌>>◌}
use intaektok_be.World.Keeps.{bind_ok}
use intaektok_be.Env.{Env}
use intaektok_be.Auth.Jwt.{Jwt, TokenKind}
use intaektok_be.Auth.Kakao.{KakaoUserInfo}
use intaektok_be.Auth.Session.{TokenPair, issue_tokens}
use intaektok_be.Auth.Login.{
  LoginResult, find_whitelist, find_kakao, admit, admit_identity, upsert_user, accept,
  record_access_request, activated, logged_in, new_user, requests,
}

upsert_user_lem :
    (env : Env) (k : Ident) (w : World)
    → (u : User) × (v : World) × (upsert_user env k w ≡ (ok u, v))
      × (find_kakao k v ≡ some u)
      × (u.status ≡ UserStatus.active)
unfolding upsert_user
upsert_user_lem env k w = elim (Option-cases (find_kakao k w)) [
  | inl e ↦ rw e (new_user env k w, _, refl, rw (==_refl k) refl, refl)
  | inr (u, e) ↦ rw e (
    activated u,
    _,
    refl,
    find-update_where (λ (y : User). y.kakao_id == k) activated w.users u (λ y h. h) e,
    refl,
  )
]

accept_lem :
    (x : Whitelist) (w : World)
    → (l : List Whitelist) × (accept x w ≡ (ok tt, record w { whitelist = l }))
accept_lem x w = elim (Bool-cases (is_invited x.status)) [
  | inl i ↦ rw i (_, refl)
  | inr i ↦ rw i (_, refl)
]

-- The access token names the user, the refresh token names the user and a `jti`, and this refresh token
-- is one that `refresh` takes.
abbrev pub AreFor : Jwt → Ident → TokenPair → (Ident → Ident → Bool) → Type 0
AreFor jwt user tokens live =
    (jti : Ident) × (tokens.access_token
      ≡ jwt.sign_access (record { sub = user; kind = TokenKind.access; jti = 0 }))
    × (tokens.refresh_token
        ≡ jwt.sign_refresh (record { sub = user; kind = TokenKind.refresh; jti = jti }))
    × (live user jti ≡ true)

logged_in_lem :
    (jwt : Jwt) (u : User) (w : World)
    → (t : LoginResult) × (n : ℕ) × (r : Ident → Ident → Bool) × (logged_in jwt u w
        ≡ (ok t, record w { issued = n; refresh = r }))
      × (u.id ≡ t.user_id)
      × AreFor jwt u.id t.tokens r
unfolding logged_in issue_tokens
logged_in_lem jwt u w =
    let jti = jwt.new_jti w.issued in
    (_, _, _, refl, refl, (jti, refl, refl, rw (==_refl u.id, ==_refl jti) refl))

admit_eq :
    (env : Env) (jwt : Jwt) (info : KakaoUserInfo) (x : Whitelist) (w v : World) (u : User)
    (l : List Whitelist)
    → upsert_user env info.kakao_id w ≡ (ok u, v)
    → accept x v ≡ (ok tt, record v { whitelist = l })
    → admit env jwt info x w ≡ logged_in jwt u (record v { whitelist = l })
unfolding admit
admit_eq env jwt info x w v u l e a =
    bind_ok (upsert_user env info.kakao_id) (λ y. accept x >> logged_in jwt y) w v u e
    ∙ bind_ok (accept x) (λ _. logged_in jwt u) v (record v { whitelist = l }) tt a

-- Who is let in gets tokens, and an account that is active.
admit_lem :
    (env : Env) (jwt : Jwt) (info : KakaoUserInfo) (x : Whitelist) (w : World)
    → (t : LoginResult) × ((admit env jwt info x w).0 ≡ ok t)
      × (u : User) × (find_kakao info.kakao_id (admit env jwt info x w).1 ≡ some u)
      × (u.id ≡ t.user_id)
      × (u.status ≡ UserStatus.active)
      × AreFor jwt u.id t.tokens (admit env jwt info x w).1.refresh
admit_lem env jwt info x w =
    let (u, v, e, found, s) = upsert_user_lem env info.kakao_id w in
    let (l, a) = accept_lem x v in
    let (t, n, r, q, i, f) = logged_in_lem jwt u (record v { whitelist = l }) in
    rw (admit_eq env jwt info x w v u l e a ∙ q) (t, refl, u, found, i, s, f)

module _ (env : Env) (jwt : Jwt) (info : KakaoUserInfo) (w : World) where
  pub admit_identity_blocked :
      (x : Whitelist)
      → find_whitelist info.kakao_id w ≡ some x
      → is_blocked x.status ≡ true
      → admit_identity env jwt info w ≡ (err (not_allowed "등록된 사용자만 이용할 수 있습니다."), w)
  unfolding admit_identity
  admit_identity_blocked x e b = rw (e, b) refl

  admit_identity_unlisted :
      find_whitelist info.kakao_id w ≡ none
      → admit_identity env jwt info w
        ≡ (err (not_allowed "등록된 사용자만 이용할 수 있습니다."), record_access_request env info w)
  unfolding admit_identity
  admit_identity_unlisted e = rw e refl

  admit_identity_listed :
      (x : Whitelist)
      → find_whitelist info.kakao_id w ≡ some x
      → is_blocked x.status ≡ false
      → admit_identity env jwt info w ≡ admit env jwt info x w
  unfolding admit_identity
  admit_identity_listed x e b = rw (e, b) refl

  record_access_request_lem :
      (l : List AccessRequest) × (n : ℕ) × (record_access_request env info w
        ≡ record w { access_requests = l; issued = n })
  unfolding record_access_request
  record_access_request_lem =
      elim (Bool-cases (is_some (find (requests info.kakao_id) w.access_requests))) [
        | inl e ↦ rw e (_, _, refl)
        | inr e ↦ rw e (_, _, refl)
      ]

  -- The identity is on the whitelist, and not blocked.
  abbrev pub IsInvited : Type 0
  IsInvited =
      (x : Whitelist) × (find_whitelist info.kakao_id w ≡ some x) × (is_blocked x.status ≡ false)

  -- The login returned tokens of the identity's account, which is active.
  abbrev pub LetIn : Result LoginResult × World → Type 0
  LetIn r =
      (t : LoginResult) × (r.0 ≡ ok t)
      × (u : User) × (find_kakao info.kakao_id r.1 ≡ some u)
      × (u.id ≡ t.user_id)
      × (u.status ≡ UserStatus.active)
      × AreFor jwt u.id t.tokens (r.1).refresh

  -- The login was refused, and at most the queue of access requests grew.
  abbrev pub KeptOut : Result LoginResult × World → Type 0
  KeptOut r =
      (r.0 ≡ err (not_allowed "등록된 사용자만 이용할 수 있습니다."))
      × (l : List AccessRequest) × (n : ℕ) × (r.1 ≡ record w { access_requests = l; issued = n })

  -- A login of a Kakao identity whose whitelist entry is not blocked returns an access token and a live
  -- refresh token that name the account of that identity, which is active afterwards; any other identity is refused with NOT_ALLOWED, and
  -- nothing is written but the queue of access requests and the ids issued for it.
  pub admit_identity_gate :
      (IsInvited × LetIn (admit_identity env jwt info w))
      ⊎ (¬ IsInvited × KeptOut (admit_identity env jwt info w))
  admit_identity_gate = elim (Option-cases (find_whitelist info.kakao_id w)) [
    | inl e ↦
        let (l, n, q) = record_access_request_lem in
        inr ((λ (x, f, _). cc), rw (admit_identity_unlisted e) (refl, l, n, q))
    | inr (x, e) ↦ elim (Bool-cases (is_blocked x.status)) [
      | inl b ↦ inr (
        (λ (y, f, c). ground (arith, e, b, f, c)),
        rw (admit_identity_blocked x e b) (refl, w.access_requests, w.issued, refl),
      )
      | inr b ↦ inl ((x, e, b), rw (admit_identity_listed x e b) (admit_lem env jwt info x w))
    ]
  ]
