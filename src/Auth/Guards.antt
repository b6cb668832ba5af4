-- ===== src/Auth/Guards.antt =====
-- src/common/guards, src/common/admin.util.ts and src/auth/strategies/jwt.strategy.ts: what a request
-- must pass before a handler runs.
use intaektok_be.Prelude.{
  Bool, true, false, not, ◌&&◌, ◌||◌, Option, none, some, List, [], ◌∷◌, Ident, Text, ◌==◌,
  if◌then◌else◌, find, contains, is_some,
}
use intaektok_be.Prisma.{MemberRole, Profile, User, RoomMember}
use intaektok_be.Common.Errors.{unauthorized, forbidden, validation}
use intaektok_be.World.{World, Result, ok, err, Call, pure, throw, gets, ◌>>=◌, ◌>>◌, throw_if}
use intaektok_be.Messages.Checks.{find_member}
use intaektok_be.Auth.Jwt.{Jwt, TokenPayload, is_access}
use intaektok_be.Auth.Session.{find_user, is_inactive}
use intaektok_be.Auth.Login.{onboarded}

-- `JwtStrategy.validate`
unfoldable pub validate_token : TokenPayload → Call Ident
validate_token p = do
  throw_if (not (is_access p.kind)) (unauthorized "인증이 필요합니다.")
  user ← gets (find_user p.sub)
  throw_if (is_inactive user) (unauthorized "비활성화된 계정입니다.")
  pure p.sub

abbrev validated : Result Ident → World → Result Ident × World
validated (ok user) w = (ok user, w)
validated (err _) w = throw (unauthorized "유효하지 않거나 만료된 토큰입니다.") w

abbrev authenticated : Option TokenPayload → Call Ident
authenticated none w = throw (unauthorized "유효하지 않거나 만료된 토큰입니다.") w
authenticated (some p) w = let (r, w') = validate_token p w in validated r w'

-- `JwtAuthGuard` over the strategy: any failure of the strategy becomes its own error.
unfoldable pub authenticate : Jwt → Text → Call Ident
authenticate jwt token w = authenticated (jwt.verify_access token) w

-- `!!kakaoId && adminIds.includes(kakaoId)`
abbrev pub is_listed : List Ident → Option Ident → Bool
is_listed admins none = false
is_listed admins (some k) = not (k == 0) && contains admins k

unfoldable pub is_admin_identity : List Ident → Ident → Option Ident → Bool
is_admin_identity [] user kakao_id = false
is_admin_identity (a ∷ as') user kakao_id =
    not (user == 0) && (contains (a ∷ as') user || is_listed (a ∷ as') kakao_id)

abbrev is_nil : List Ident → Bool
is_nil [] = true
is_nil (_ ∷ _) = false

abbrev pub kakao_of : Option User → Option Ident
kakao_of none = none
kakao_of (some u) = some u.kakao_id

-- `AdminGuard.canActivate`
unfoldable pub admin_guard : List Ident → Ident → Call Bool
admin_guard admins user = do
  throw_if (user == 0 || is_nil admins) (forbidden "관리자 권한이 필요합니다.")
  stored ← gets (find_user user)
  throw_if
      (not (is_admin_identity admins user none)
        && not (is_admin_identity admins user (kakao_of stored)))
      (forbidden "관리자 권한이 필요합니다.")
  pure true

-- `OnboardedGuard.canActivate`
unfoldable pub onboarded_guard : Ident → Call Bool
onboarded_guard user = do
  throw_if ((user == 0)) (unauthorized "인증이 필요합니다.")
  profile ← gets (λ w. find (λ (p : Profile). p.user_id == user) w.profiles)
  throw_if (not (onboarded profile)) (forbidden "프로필 온보딩이 필요합니다.")
  pure true

-- `req.roomMember`
pub record ActiveMembership : Type 0 where
  pub room_id : Ident
  pub user_id : Ident
  pub role : MemberRole

abbrev membership_of : Ident → Ident → Option RoomMember → Call ActiveMembership
membership_of room user none = throw (forbidden "해당 채팅방에 접근할 권한이 없습니다.")
membership_of room user (some m) =
    if is_some m.left_at
    then throw (forbidden "해당 채팅방에 접근할 권한이 없습니다.")
    else pure (record { room_id = room; user_id = user; role = m.role })

-- `RoomMemberGuard.canActivate`; the result is what it attaches to the request.
unfoldable pub room_member_guard : Ident → Ident → Call ActiveMembership
room_member_guard room user = do
  throw_if ((user == 0)) (unauthorized "인증이 필요합니다.")
  throw_if ((room == 0)) (validation "roomId가 필요합니다.")
  membership ← gets (find_member room user)
  membership_of room user membership
