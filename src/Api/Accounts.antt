-- ===== src/Api/Accounts.antt =====
-- src/auth/auth.controller.ts, src/profile/profile.controller.ts and src/push/push.controller.ts
use intaektok_be.Prelude.{Ident, Text}
use intaektok_be.World.{Call, pure, ◌>>=◌}
use intaektok_be.Auth.Session.{TokenPair}
use intaektok_be.Auth.Login.{LoginResult}
use intaektok_be.Auth.Me.{Me}
use intaektok_be.Profile.{CreateProfileDto, UpdateProfileDto, ProfileView}
use intaektok_be.Push.{RegisterTokenDto}
use intaektok_be.Api.{Server}

unfoldable pub kakao : Server → Text → Text → Call LoginResult
kakao s code redirect_uri =
    intaektok_be.Auth.Login.kakao_login s.env s.jwt s.kakao code redirect_uri

unfoldable pub refresh : Server → Text → Call TokenPair
refresh s token = intaektok_be.Auth.Session.refresh s.jwt token

unfoldable pub logout : Server → Text → Call (Unit {0})
logout s token = intaektok_be.Auth.Session.logout s.jwt token

unfoldable pub me : Server → Ident → Call Me
me s user = intaektok_be.Auth.Me.me s.env s.admins user

unfoldable pub create_profile : Server → Ident → CreateProfileDto → Call ProfileView
create_profile s user dto = intaektok_be.Profile.create s.env user dto

unfoldable pub update_profile : Server → Ident → UpdateProfileDto → Call ProfileView
update_profile s user dto = intaektok_be.Profile.update s.env user dto

-- `PushTokenResponse`
pub record PushTokenResponse : Type 0 where
  pub id : Ident
  pub platform : Ident

unfoldable pub register : Server → Ident → RegisterTokenDto → Call PushTokenResponse
register s user dto = do
  t ← intaektok_be.Push.register_token s.env user dto
  pure (record { id = t.id; platform = t.platform })

unfoldable pub remove : Ident → Ident → Call (Unit {0})
remove user token_id = intaektok_be.Push.remove_token user token_id
