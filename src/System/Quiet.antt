-- ===== src/System/Quiet.antt =====
-- On the calls that change neither messages nor users nor the whitelist.
use intaektok_be.Prelude.{
  ℕ, Option, none, some, List, [], ◌∷◌, Ident, Text, find, ◌≡◌, ◌≤◌, ◌∙◌, refl, arith,
}
use intaektok_be.Messages.Checks.{is_member_row}
use intaektok_be.Prisma.{MemberRole, Room, RoomMember}
use intaektok_be.World.{World, Call}
use intaektok_be.Env.{Env}
use intaektok_be.Auth.Jwt.{Jwt}

-- The messages, the users and the whitelist are as before; ids may have been given out.
abbrev pub Calm : World → World → Type 0
Calm w v =
    (v.messages ≡ w.messages)
    × (v.users ≡ w.users)
    × (v.whitelist ≡ w.whitelist)
    × (w.issued ≤ v.issued)

pub record Quiet {A : Type 0} (m : Call A) : Type 0 where
  pub at : (w : World) → Calm w (m w).1

pub refresh-Quiet : (jwt : Jwt) (t : Text) → Quiet (intaektok_be.Auth.Session.refresh jwt t)
unfolding intaektok_be.Auth.Session.refresh intaektok_be.Auth.Session.refresh_verified
    intaektok_be.Auth.Session.issue_tokens intaektok_be.Auth.Session.revoke_all_sessions
refresh-Quiet jwt t = record { at = λ w. (ground arith, ground arith, ground arith, ground arith) }

pub logout-Quiet : (jwt : Jwt) (t : Text) → Quiet (intaektok_be.Auth.Session.logout jwt t)
unfolding intaektok_be.Auth.Session.logout
logout-Quiet jwt t = record { at = λ w. (ground arith, ground arith, ground arith, ground arith) }

pub me-Quiet :
    (env : Env) (admins : List Ident) (u : Ident) → Quiet (intaektok_be.Auth.Me.me env admins u)
unfolding intaektok_be.Auth.Me.me
me-Quiet env admins u = record {
  at = λ w. (ground arith, ground arith, ground arith, ground arith);
}

pub create_profile-Quiet :
    (env : Env) (u : Ident) (dto : intaektok_be.Profile.CreateProfileDto)
    → Quiet (intaektok_be.Profile.create env u dto)
unfolding intaektok_be.Profile.create intaektok_be.Media.assert_owned_media_or_null
    intaektok_be.Media.assert_owned_media
create_profile-Quiet env u dto = record {
  at = λ w. (ground arith, ground arith, ground arith, ground arith);
}

pub update_profile-Quiet :
    (env : Env) (u : Ident) (dto : intaektok_be.Profile.UpdateProfileDto)
    → Quiet (intaektok_be.Profile.update env u dto)
unfolding intaektok_be.Profile.update intaektok_be.Media.assert_owned_media_or_null
    intaektok_be.Media.assert_owned_media
update_profile-Quiet env u dto = record {
  at = λ w. (ground arith, ground arith, ground arith, ground arith);
}

pub register_token-Quiet :
    (env : Env) (u : Ident) (dto : intaektok_be.Push.RegisterTokenDto)
    → Quiet (intaektok_be.Push.register_token env u dto)
unfolding intaektok_be.Push.register_token
register_token-Quiet env u dto = record {
  at = λ w. (ground arith, ground arith, ground arith, ground arith);
}

pub remove_token-Quiet : (u i : Ident) → Quiet (intaektok_be.Push.remove_token u i)
unfolding intaektok_be.Push.remove_token
remove_token-Quiet u i = record {
  at = λ w. (ground arith, ground arith, ground arith, ground arith);
}

pub search-Quiet :
    (env : Env) (u : Ident) (q : Text) (c : Option Ident) (l : ℕ)
    → Quiet (intaektok_be.Users.search env u q c l)
unfolding intaektok_be.Users.search
search-Quiet env u q c l = record { at = λ w. (refl, refl, refl, omega arith) }

pub get_profile-Quiet : (env : Env) (u i : Ident) → Quiet (intaektok_be.Users.get_profile env u i)
unfolding intaektok_be.Users.get_profile
get_profile-Quiet env u i = record {
  at = λ w. (ground arith, ground arith, ground arith, ground arith);
}

pub upload-Quiet :
    (env : Env) (u : Ident) (dto : intaektok_be.Media.CreateUploadUrlDto)
    → Quiet (intaektok_be.Media.create_upload_url env u dto)
unfolding intaektok_be.Media.create_upload_url
upload-Quiet env u dto = record {
  at = λ w. (ground arith, ground arith, ground arith, ground arith);
}

pub complete-Quiet : (env : Env) (m u : Ident) → Quiet (intaektok_be.Media.complete env m u)
unfolding intaektok_be.Media.complete
complete-Quiet env m u = record {
  at = λ w. (ground arith, ground arith, ground arith, ground arith);
}

pub get_media-Quiet : (env : Env) (m u : Ident) → Quiet (intaektok_be.Media.get_media env m u)
unfolding intaektok_be.Media.get_media
get_media-Quiet env m u = record {
  at = λ w. (ground arith, ground arith, ground arith, ground arith);
}

pub mark_read-Quiet : (r u : Ident) (n : ℕ) → Quiet (intaektok_be.Messages.Read.mark_read r u n)
unfolding intaektok_be.Messages.Read.mark_read
mark_read-Quiet r u n = record {
  at = λ w. (ground arith, ground arith, ground arith, ground arith);
}

pub list_messages-Quiet :
    (r : Ident) (c : Option intaektok_be.Messages.History.Cursor) (l : ℕ)
    → Quiet (intaektok_be.Messages.History.list_messages r c l)
unfolding intaektok_be.Messages.History.list_messages
list_messages-Quiet r c l = record {
  at = λ w. (ground arith, ground arith, ground arith, ground arith);
}

pub dismiss-Quiet : (i : Ident) → Quiet (intaektok_be.Admin.dismiss_access_request i)
unfolding intaektok_be.Admin.dismiss_access_request
dismiss-Quiet i = record { at = λ w. (ground arith, ground arith, ground arith, ground arith) }

pub require_group-Quiet : (room : Ident) → Quiet (intaektok_be.Rooms.Checks.require_group room)
unfolding intaektok_be.Rooms.Checks.require_group
require_group-Quiet room = record {
  at = λ w. (ground arith, ground arith, ground arith, ground arith);
}

pub assert_active_users-Quiet :
    (ids : List Ident) → Quiet (intaektok_be.Rooms.Checks.assert_active_users ids)
unfolding intaektok_be.Rooms.Checks.assert_active_users
assert_active_users-Quiet ids = record {
  at = λ w. (ground arith, ground arith, ground arith, ground arith);
}

pub assert_owned-Quiet :
    (m : Option Ident) (u : Ident) → Quiet (intaektok_be.Media.assert_owned_media_or_null m u)
unfolding intaektok_be.Media.assert_owned_media_or_null intaektok_be.Media.assert_owned_media
assert_owned-Quiet m u = record {
  at = λ w. (ground arith, ground arith, ground arith, ground arith);
}

pub assert_may_remove-Quiet :
    (room actor : Ident) (role : MemberRole) (target : Ident)
    → Quiet (intaektok_be.Rooms.Leave.assert_may_remove room actor role target)
unfolding intaektok_be.Rooms.Leave.assert_may_remove intaektok_be.Rooms.Leave.assert_may_kick
assert_may_remove-Quiet room actor role target = record {
  at = λ w. (ground arith, ground arith, ground arith, ground arith);
}

pub leave-Quiet :
    (room target : Ident) (r : Room) (t : RoomMember)
    → Quiet (intaektok_be.Rooms.Leave.leave room target r t)
unfolding intaektok_be.Rooms.Leave.leave intaektok_be.Rooms.Leave.transfer_ownership
leave-Quiet room target r t = record {
  at = λ w. (ground arith, ground arith, ground arith, ground arith);
}

admit_one-Quiet :
    (room user : Ident) (head : ℕ) (o : Option RoomMember) (w : World)
    → Calm w (intaektok_be.Rooms.Manage.admit_one room user head o w).0
admit_one-Quiet room user head none w = (refl, refl, refl, omega arith)
admit_one-Quiet room user head (some m) w = (ground arith, ground arith, ground arith, ground arith)

admit_all-Quiet :
    (room : Ident) (head : ℕ) (rows : List RoomMember) (us : List Ident) (w : World)
    → Calm w (intaektok_be.Rooms.Manage.admit_all room head rows us w).1
unfolding intaektok_be.Rooms.Manage.admit_all
admit_all-Quiet room head rows [] w = (refl, refl, refl, omega arith)
admit_all-Quiet room head rows (u ∷ us) w =
    let o = find (is_member_row room u) rows in
    let (m, a, l, n) = admit_one-Quiet room u head o w in
    let (m', a', l', n') =
      admit_all-Quiet room head rows us (intaektok_be.Rooms.Manage.admit_one room u head o w).0 in
    (m' ∙ m, a' ∙ a, l' ∙ l, omega (arith, n, n'))

pub admit_call-Quiet :
    (room : Ident) (head : ℕ) (rows : List RoomMember) (us : List Ident)
    → Quiet (intaektok_be.Rooms.Manage.admit_call room head rows us)
admit_call-Quiet room head rows us = record { at = λ w. admit_all-Quiet room head rows us w }

pub bearer-Quiet :
    (jwt : Jwt) (token : Option Text) → Quiet (intaektok_be.Api.authenticate_bearer jwt token)
unfolding intaektok_be.Api.authenticate_bearer intaektok_be.Auth.Guards.authenticate
    intaektok_be.Auth.Guards.validate_token
bearer-Quiet jwt token = record {
  at = λ w. (ground arith, ground arith, ground arith, ground arith);
}

pub onboarded_guard-Quiet : (u : Ident) → Quiet (intaektok_be.Auth.Guards.onboarded_guard u)
unfolding intaektok_be.Auth.Guards.onboarded_guard
onboarded_guard-Quiet u = record {
  at = λ w. (ground arith, ground arith, ground arith, ground arith);
}

pub admin_guard-Quiet :
    (admins : List Ident) (u : Ident) → Quiet (intaektok_be.Auth.Guards.admin_guard admins u)
unfolding intaektok_be.Auth.Guards.admin_guard
admin_guard-Quiet admins u = record {
  at = λ w. (ground arith, ground arith, ground arith, ground arith);
}

pub room_member_guard-Quiet :
    (room u : Ident) → Quiet (intaektok_be.Auth.Guards.room_member_guard room u)
unfolding intaektok_be.Auth.Guards.room_member_guard
room_member_guard-Quiet room u = record {
  at = λ w. (ground arith, ground arith, ground arith, ground arith);
}

pub ruleset quiet_rules = (
  refresh-Quiet, logout-Quiet, me-Quiet, create_profile-Quiet, update_profile-Quiet,
  register_token-Quiet, remove_token-Quiet, search-Quiet, get_profile-Quiet, upload-Quiet,
  complete-Quiet, get_media-Quiet, mark_read-Quiet, list_messages-Quiet, dismiss-Quiet,
  require_group-Quiet, assert_active_users-Quiet, assert_owned-Quiet, assert_may_remove-Quiet,
  leave-Quiet, admit_call-Quiet,
)
