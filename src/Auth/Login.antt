-- ===== src/Auth/Login.antt =====
-- src/auth/auth.service.ts: `kakaoLogin`, which the whitelist gates, and the queue of those whom it
-- refuses; src/auth/whitelist-bootstrap.service.ts.
pub mod Gate
use intaektok_be.Prelude.{
  ℕ, suc, Bool, true, false, not, ◌&&◌, Option, none, some, List, [], ◌∷◌, Ident, Text, codes, ◌==◌,
  opt_eq, if◌then◌else◌, find, update_where, is_some,
}
use intaektok_be.Prisma.{
  User, UserStatus, Whitelist, WhitelistStatus, AccessRequest, Profile, is_blocked, is_invited,
}
use intaektok_be.Common.Errors.{not_allowed}
use intaektok_be.World.{World, ok, Call, pure, throw, gets, ◌>>=◌, ◌>>◌, when, modify}
use intaektok_be.Env.{Env}
use intaektok_be.Auth.Jwt.{Jwt}
use intaektok_be.Auth.Kakao.{KakaoApi, KakaoUserInfo, exchange_code_for_token, get_user_info}
use intaektok_be.Auth.Session.{TokenPair, issue_tokens}

pub record LoginResult : Type 0 where
  pub tokens : TokenPair
  pub user_id : Ident
  pub kakao_id : Ident
  pub is_onboarded : Bool

abbrev pub find_whitelist : Ident → World → Option Whitelist
find_whitelist kakao_id w = find (λ (x : Whitelist). opt_eq x.kakao_id (some kakao_id)) w.whitelist

abbrev pub find_kakao : Ident → World → Option User
find_kakao kakao_id w = find (λ (u : User). u.kakao_id == kakao_id) w.users

abbrev requests : Ident → AccessRequest → Bool
requests kakao_id r = r.kakao_id == kakao_id

abbrev retried : KakaoUserInfo → AccessRequest → AccessRequest
retried info r = record r {
  attempts = suc r.attempts;
  nickname = info.nickname;
  profile_image_url = info.profile_image_url;
}

abbrev new_request : Env → KakaoUserInfo → World → AccessRequest
new_request env info w = record {
  id = env.cuid w.issued;
  kakao_id = info.kakao_id;
  nickname = info.nickname;
  profile_image_url = info.profile_image_url;
  attempts = 1;
  created_at = w.now;
}

-- The upsert of `recordAccessRequest`; that a failure of it is swallowed changes nothing here.
unfoldable pub record_access_request : Env → KakaoUserInfo → World → World
record_access_request env info w =
    if is_some (find (requests info.kakao_id) w.access_requests)
    then record w {
      access_requests = update_where (requests info.kakao_id) (retried info) w.access_requests;
    }
    else record w {
      access_requests = new_request env info w ∷ w.access_requests;
      issued = suc w.issued;
    }

abbrev pub activated : User → User
activated u = record u { status = UserStatus.active }

abbrev pub new_user : Env → Ident → World → User
new_user env kakao_id w = record {
  id = env.cuid w.issued;
  kakao_id = kakao_id;
  status = UserStatus.active;
  created_at = w.now;
  last_seen_at = none;
}

abbrev pub upserted : Env → Ident → Option User → Call User
upserted env kakao_id none w =
    let u = new_user env kakao_id w in
    (ok u, record w { users = u ∷ w.users; issued = suc w.issued })
upserted env kakao_id (some u) w = (
  ok (activated u),
  record w { users = update_where (λ (x : User). x.kakao_id == kakao_id) activated w.users },
)

-- `user.upsert`
unfoldable pub upsert_user : Env → Ident → Call User
upsert_user env kakao_id w = upserted env kakao_id (find_kakao kakao_id w) w

abbrev pub accepted : Whitelist → Whitelist
accepted x = record x { status = WhitelistStatus.active }

abbrev pub accept : Whitelist → Call (Unit {0})
accept entry = when (is_invited entry.status) (
    modify λ w. record w {
      whitelist = update_where (λ (x : Whitelist). x.id == entry.id) accepted w.whitelist;
    })

-- `!!profile?.onboardedAt`
abbrev pub onboarded : Option Profile → Bool
onboarded none = false
onboarded (some p) = is_some p.onboarded_at

abbrev result_of : User → Option Profile → TokenPair → LoginResult
result_of u profile tokens = record {
  tokens = tokens;
  user_id = u.id;
  kakao_id = u.kakao_id;
  is_onboarded = onboarded profile;
}

-- From the profile on.
unfoldable pub logged_in : Jwt → User → Call LoginResult
logged_in jwt u = do
  profile ← gets (λ w. find (λ (p : Profile). p.user_id == u.id) w.profiles)
  tokens ← issue_tokens jwt u.id
  pure (result_of u profile tokens)

-- The path of an identity that the whitelist lets in.
unfoldable pub admit : Env → Jwt → KakaoUserInfo → Whitelist → Call LoginResult
admit env jwt info entry = do u ← upsert_user env info.kakao_id; accept entry; logged_in jwt u

abbrev pub gated : Env → Jwt → KakaoUserInfo → Option Whitelist → Call LoginResult
gated env jwt info none =
    modify (record_access_request env info) >> throw (not_allowed "등록된 사용자만 이용할 수 있습니다.")
gated env jwt info (some entry) =
    if is_blocked entry.status
    then throw (not_allowed "등록된 사용자만 이용할 수 있습니다.")
    else admit env jwt info entry

unfoldable pub admit_identity : Env → Jwt → KakaoUserInfo → Call LoginResult
admit_identity env jwt info w = gated env jwt info (find_whitelist info.kakao_id w) w

unfoldable pub kakao_login : Env → Jwt → KakaoApi → Text → Text → Call LoginResult
kakao_login env jwt api code redirect_uri = do
  token ← exchange_code_for_token api code redirect_uri
  info ← get_user_info api token
  admit_identity env jwt info

abbrev pub bootstrap_entry : Env → Ident → World → Whitelist
bootstrap_entry env kakao_id w = record {
  id = env.cuid w.issued;
  kakao_id = some kakao_id;
  identifier = none;
  status = WhitelistStatus.invited;
  invited_by = none;
  note = some (codes "env bootstrap");
  created_at = w.now;
}

abbrev pub bootstrap_one : Env → Ident → World → World
bootstrap_one env kakao_id w = if is_some (find_whitelist kakao_id w) then w else record w {
  whitelist = bootstrap_entry env kakao_id w ∷ w.whitelist;
  issued = suc w.issued;
}

-- `onApplicationBootstrap`
unfoldable pub bootstrap_whitelist : Env → List Ident → World → World
bootstrap_whitelist env [] w = w
bootstrap_whitelist env (k ∷ ks) w = bootstrap_whitelist env ks (bootstrap_one env k w)
