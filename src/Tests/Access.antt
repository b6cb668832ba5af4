-- ===== src/Tests/Access.antt =====
-- The theorems on accounts, sessions, the whitelist and stored media.
use intaektok_be.Prelude.{true, none, some, [], ◌∷◌, Ident, Text, ◌≡◌, refl, ◌↔◌, ◌⊎◌}
use intaektok_be.Prisma.{WhitelistStatus}
use intaektok_be.Common.Errors.{unauthorized, conflict}
use intaektok_be.World.{World, ok, err}
use intaektok_be.Auth.Jwt.{TokenPayload, TokenKind}
use intaektok_be.Auth.Kakao.{KakaoUserInfo}
use intaektok_be.Auth.Session.{refresh, refresh_verified}
use intaektok_be.Auth.Session.Rotation.{NoSessions, refresh_replayed}
use intaektok_be.Auth.Login.{admit_identity}
use intaektok_be.Auth.Login.Gate.{IsInvited, LetIn, KeptOut, admit_identity_gate}
use intaektok_be.Auth.Guards.{validate_token, admin_guard, onboarded_guard}
use intaektok_be.Auth.Me.{me, me_agrees, about}
use intaektok_be.Admin.{UpdateWhitelistDto, update, approve_access_request}
use intaektok_be.Admin.Block.{Refused, update_shuts_out}
use intaektok_be.Admin.Requests.{IsBlockedOut, Approved, approve_admits}
use intaektok_be.Media.{MediaView, get_media}
use intaektok_be.Media.Access.{Visible, get_media_iff}
use intaektok_be.Profile.{CreateProfileDto, ProfileView, create, onboarding}
use intaektok_be.Tests.{env, jwt, world, ann, entry, applicant, picture}

-- Ann's refresh token, which is live.
abbrev token : Text
token = 1 ∷ 5 ∷ []

abbrev payload : TokenPayload
payload = record { sub = 1; kind = TokenKind.refresh; jti = 5 }

refresh_replayed_example :
    ((refresh jwt token (refresh jwt token world).1).0
      ≡ err (unauthorized "만료되었거나 이미 사용된 리프레시 토큰입니다."))
    × NoSessions 1 (refresh jwt token (refresh jwt token world).1).1
refresh_replayed_example = refresh_replayed jwt token payload world refl refl refl refl refl

abbrev identity : Ident → KakaoUserInfo
identity k = record { kakao_id = k; nickname = none; profile_image_url = none }

admit_identity_gate_example :
    (IsInvited env jwt (identity 101) world
      × LetIn env jwt (identity 101) world (admit_identity env jwt (identity 101) world))
    ⊎ ((¬ IsInvited env jwt (identity 101) world)
        × KeptOut env jwt (identity 101) world (admit_identity env jwt (identity 101) world))
admit_identity_gate_example = admit_identity_gate env jwt (identity 101) world

me_agrees_example :
    (((about env (101 ∷ []) ann world).is_admin ≡ true)
      ↔ ((admin_guard (101 ∷ []) 1 world).0 ≡ ok true))
    × (((about env (101 ∷ []) ann world).is_onboarded ≡ true)
        ↔ ((onboarded_guard 1 world).0 ≡ ok true))
unfolding me
me_agrees_example = me_agrees env (101 ∷ []) 1 (about env (101 ∷ []) ann world) world refl refl

abbrev block : UpdateWhitelistDto
block = record { status = some (some WhitelistStatus.blocked); note = none }

abbrev blocked_world : World
blocked_world = (update 51 block world).1

update_shuts_out_example :
    ((p : TokenPayload)
      → p.sub ≡ 1
      → Refused (validate_token p blocked_world) × Refused (refresh_verified jwt p blocked_world))
    × ((info : KakaoUserInfo)
        → info.kakao_id ≡ 101
        → Refused (admit_identity env jwt info blocked_world))
update_shuts_out_example =
    update_shuts_out env jwt 51 101 block (entry 51 101 WhitelistStatus.active) ann world refl refl
      refl refl refl refl

approve_admits_example :
    (IsBlockedOut 109 world
      × (approve_access_request env 60 1 world
          ≡ (err (conflict "차단된 사용자입니다. 먼저 차단을 해제하세요."), world)))
    ⊎ ((¬ IsBlockedOut 109 world) × Approved 60 109 (approve_access_request env 60 1 world))
approve_admits_example = approve_admits env 60 1 applicant world refl

get_media_iff_example :
    (((v : MediaView) × ((get_media env 30 2 world).0 ≡ ok v)) ↔ Visible picture 2 world)
    × ((get_media env 30 2 world).1 ≡ world)
get_media_iff_example = get_media_iff env 30 2 picture world refl

abbrev newcomer : CreateProfileDto
newcomer = record { nickname = 98 ∷ []; status_message = none; avatar_media_id = none }

abbrev created : ProfileView
created = record { profile = onboarding 2 newcomer 1000; avatar_url = none }

abbrev onboarded_world : World
onboarded_world = (create env 2 newcomer world).1
