-- ===== src/System/Accounts/Login.antt =====
-- On `kakaoLogin` of src/auth/auth.service.ts, which makes and activates users.
use intaektok_be.Prelude.{
  ℕ, suc, ◌≡◌, inl, inr, refl, sym, ap, ◌∙◌, subst, true, false, Option, none, some, ◌∷◌, Ident,
  Text, ◌==◌, opt_eq, update_where, In, find-In, find-holds, arith, Bool-cases, Option-cases,
}
use intaektok_be.Prisma.{User, UserStatus, Whitelist, is_blocked, is_invited}
use intaektok_be.World.{World, Result, modify, ◌>>=◌}
use intaektok_be.World.Keeps.{Keeps, bind_rule, bind-Keeps, when-Keeps}
use intaektok_be.Env.{Env}
use intaektok_be.Auth.Jwt.{Jwt}
use intaektok_be.Auth.Kakao.{KakaoApi, KakaoUserInfo, exchange_code_for_token, get_user_info}
use intaektok_be.Auth.Session.{issue_tokens}
use intaektok_be.Auth.Login.{
  find_whitelist, find_kakao, activated, new_user, upserted, upsert_user, accepted, accept,
  logged_in, admit, gated, admit_identity, record_access_request, kakao_login,
}
use intaektok_be.System.Quiet.{Calm, Quiet}
use intaektok_be.System.Accounts.{In-updated, find-misses, cons-Keyed, later-Keyed}
use intaektok_be.System.Accounts.Sound.{
  Sound, Agree, IsOf, entry_id, user_id, entry_kakao, user_kakao, same-Sound, users-Sound,
  milder-Sound,
}

logged_in-Quiet : (jwt : Jwt) (u : User) → Quiet (logged_in jwt u)
unfolding logged_in issue_tokens
logged_in-Quiet jwt u = record {
  at = λ w. (ground arith, ground arith, ground arith, ground arith);
}

record_request-Calm :
    (env : Env) (info : KakaoUserInfo) (w : World) → Calm w (record_access_request env info w)
unfolding record_access_request
record_request-Calm env info w = (ground arith, ground arith, ground arith, ground arith)

token_reads :
    (api : KakaoApi) (code redirect_uri : Text) (w : World)
    → (exchange_code_for_token api code redirect_uri w).1 ≡ w
unfolding exchange_code_for_token
token_reads api code redirect_uri w = ground arith

info_reads : (api : KakaoApi) (token : Text) (w : World) → (get_user_info api token w).1 ≡ w
unfolding get_user_info
info_reads api token w = ground arith

module _ (env : Env) (distinct : (a b : ℕ) → env.cuid a ≡ env.cuid b → a ≡ b) where
  pub Calm-Sound : (w v : World) → Calm w v → Sound env w → Sound env v
  Calm-Sound w v (_, a, l, n) s = same-Sound env w v a l n s

  accept-Sound : (x : Whitelist) → Keeps (Sound env) (accept x)
  accept-Sound x =
      when-Keeps (Sound env) (is_invited x.status)
        (modify λ w. record w {
          whitelist = update_where (λ (y : Whitelist). y.id == x.id) accepted w.whitelist;
        })
        (λ w s.
          milder-Sound env (λ (y : Whitelist). y.id == x.id) accepted w (λ y. (refl, refl))
            (λ y h. absurd cc) s)

  -- An account whose entry is not blocked has its user made or activated.
  module _ (x : Whitelist) (k : Ident) (w : World) (s : Sound env w)
      (entry : find_whitelist k w ≡ some x) (free : is_blocked x.status ≡ false) where
    entry_of : x.kakao_id ≡ some k
    entry_of = elim (Option-cases x.kakao_id) [
      | inl e ↦ absurd (
          ground (
            arith,
            e,
            find-holds (λ (y : Whitelist). opt_eq y.kakao_id (some k)) w.whitelist x entry,
          ))
      | inr (a, e) ↦
          ground (
            arith,
            e,
            find-holds (λ (y : Whitelist). opt_eq y.kakao_id (some k)) w.whitelist x entry,
          )
    ]

    unblocked :
        (y : Whitelist) → In y w.whitelist → y.kakao_id ≡ some k → is_blocked y.status ≡ true → ⊥
    unblocked y i e b =
        let same =
          s.entries.by_kakao y x k i
            (find-In (λ (y : Whitelist). opt_eq y.kakao_id (some k)) w.whitelist x entry) e
            entry_of in
        cc (b, free, ap (λ (z : Whitelist). is_blocked z.status) same)

    upserted-Sound : (o : Option User) → find_kakao k w ≡ o → Sound env (upserted env k o w).1
    upserted-Sound none e = record {
      entries =
          later-Keyed env.cuid entry_id entry_kakao w.issued (suc w.issued) w.whitelist
            (omega arith) s.entries;
      users =
          cons-Keyed env.cuid user_id user_kakao (new_user env k w) w.issued w.users distinct refl
            (λ u a j p q. fresh u a (find-misses (λ (v : User). v.kakao_id == k) u w.users e j) p q)
            s.users;
      agree = agreed;
    }
      where
        fresh :
            (u : User) (a : Ident)
            → (u.kakao_id == k) ≡ false
            → some k ≡ some a
            → some u.kakao_id ≡ some a
            → ⊥
        fresh u a h p q = ground (arith, h, p, q)

        agreed : Agree w.whitelist (new_user env k w ∷ w.users)
        agreed y u i (inl d) o b = absurd (unblocked y i (o.0 ∙ ap user_kakao d) b)
        agreed y u i (inr j) o b = s.agree y u i j o b
    upserted-Sound (some t) e =
        users-Sound env (λ (u : User). u.kakao_id == k) activated w (λ u. (refl, refl)) s agreed
      where
        agreed : Agree w.whitelist (update_where (λ (u : User). u.kakao_id == k) activated w.users)
        agreed y u i j o b =
            let (v, j', d) = In-updated (λ (u : User). u.kakao_id == k) activated u w.users j in
            elim (Bool-cases (v.kakao_id == k)) [
              | inl h ↦
                  let at : u ≡ activated v = d ∙ rw h refl in
                  absurd (unblocked y i (o.0 ∙ ap user_kakao at ∙ ground (arith, h)) b)
              | inr h ↦
                  let at : u ≡ v = d ∙ rw h refl in
                  subst (λ (z : User). z.status ≡ UserStatus.suspended) (sym at)
                    (s.agree y v i j' (subst (IsOf y) at o) b)
            ]

    admit-Sound :
        (jwt : Jwt) (info : KakaoUserInfo)
        → info.kakao_id ≡ k
        → Sound env (admit env jwt info x w).1
    unfolding admit upsert_user
    admit-Sound jwt info e =
        bind_rule After After (upsert_user env info.kakao_id)
          (λ u. accept x >>= λ _. logged_in jwt u) w
          (subst (λ i. Sound env (upserted env i (find_kakao i w) w).1) (sym e)
            (upserted-Sound (find_kakao k w) refl))
          (λ u v h.
            bind_rule After After (accept x) (λ _. logged_in jwt u) v (accept-Sound x v h)
              (λ _ z i. Calm-Sound z (logged_in jwt u z).1 ((logged_in-Quiet jwt u).at z) i)
              (λ _ _ i. i))
          (λ _ _ h. h)
      where
        After : {A : Type 0} → Result A × World → Type 0
        After (_, v) = Sound env v

  gated-Sound :
      (jwt : Jwt) (info : KakaoUserInfo) (w : World) (o : Option Whitelist)
      → Sound env w
      → find_whitelist info.kakao_id w ≡ o
      → Sound env (gated env jwt info o w).1
  gated-Sound jwt info w none s e = Calm-Sound w _ (record_request-Calm env info w) s
  gated-Sound jwt info w (some x) s e = elim (Bool-cases (is_blocked x.status)) [
    | inl b ↦ rw b s
    | inr b ↦ rw b (admit-Sound x info.kakao_id w s e b jwt info refl)
  ]

  pub kakao_login-Sound :
      (jwt : Jwt) (api : KakaoApi) (code redirect_uri : Text)
      → Keeps (Sound env) (kakao_login env jwt api code redirect_uri)
  unfolding kakao_login admit_identity
  kakao_login-Sound jwt api code redirect_uri =
      bind-Keeps (Sound env) (exchange_code_for_token api code redirect_uri)
        (λ token. get_user_info api token >>= admit_identity env jwt)
        (exchange api code redirect_uri)
        (λ token.
          bind-Keeps (Sound env) (get_user_info api token) (admit_identity env jwt)
            (get_info api token)
            (λ info w s. gated-Sound jwt info w (find_whitelist info.kakao_id w) s refl))
    where
      exchange :
          (api : KakaoApi) (code redirect_uri : Text)
          → Keeps (Sound env) (exchange_code_for_token api code redirect_uri)
      exchange api code redirect_uri w s =
          subst (Sound env) (sym (token_reads api code redirect_uri w)) s

      get_info : (api : KakaoApi) (token : Text) → Keeps (Sound env) (get_user_info api token)
      get_info api token w s = subst (Sound env) (sym (info_reads api token w)) s
