-- ===== src/System/Requests.antt =====
-- On what is kept by the requests of the REST API, src/**/*.controller.ts.
use intaektok_be.Prelude.{Option, none, some, List, [], ◌∷◌, Ident, Text}
use intaektok_be.Auth.Guards.{ActiveMembership}
use intaektok_be.Auth.Jwt.{Jwt}
use intaektok_be.Api.{
  Server, guards, nobody, Guard, Caller, attached, membership, can_activate, run_guards,
  authenticate_bearer,
}
use intaektok_be.Api.Routes.{
  Request, auth_kakao, auth_logout, auth_me, auth_refresh, media_complete, media_get,
  media_upload_url, messages_list, messages_read, messages_remove, messages_send, profile_create,
  profile_update, push_register, push_remove, requests_approve, requests_dismiss, requests_list,
  rooms_add_members, rooms_create, rooms_detail, rooms_list, rooms_remove_member, rooms_update,
  rooms_update_role, users_profile, users_search, whitelist_create, whitelist_list,
  whitelist_remove, whitelist_update, handle, serve, room_of, access_of,
}
use intaektok_be.System.Quiet.{
  quiet_rules, bearer-Quiet, onboarded_guard-Quiet, admin_guard-Quiet, room_member_guard-Quiet,
}
use intaektok_be.System.Preserves.{Preserves, Law, of_Quiet, preserve_rules, bind-Preserves}
use intaektok_be.System.Preserves.Rooms.{
  create_message-Preserves, get_room_view-Preserves, update_room-Preserves,
  update_member_role-Preserves, add_members-Preserves, remove_member-Preserves,
}
use intaektok_be.System.Preserves.Create.{create_room-Preserves}
use intaektok_be.System.Preserves.Unsend.{soft_delete-Preserves}
use intaektok_be.System.Preserves.Listing.{list_rooms-Preserves}
use intaektok_be.World.{World}
use intaektok_be.Auth.Kakao.{KakaoApi}
use intaektok_be.Auth.Login.{kakao_login}
use intaektok_be.Admin.{CreateWhitelistDto, UpdateWhitelistDto, update, approve_access_request}

module _ {Q : World → Type 0} where
  attached-Preserves : (o : Option ActiveMembership) → Preserves Q (attached o)
  attached-Preserves none = search preserve_rules
  attached-Preserves (some m) = search preserve_rules

  membership-Preserves : (c : Caller) → Preserves Q (membership c)
  unfolding membership
  membership-Preserves c = attached-Preserves c.room_member

  module _ (s : Server) (law : Law s.env Q) (c : Caller) where
    login-Preserves :
        (jwt : Jwt) (api : KakaoApi) (code redirect_uri : Text)
        → Preserves Q (kakao_login s.env jwt api code redirect_uri)
    login-Preserves jwt api code redirect_uri = law.login jwt api code redirect_uri

    create_entry-Preserves :
        (dto : CreateWhitelistDto) (by : Ident)
        → Preserves Q (intaektok_be.Admin.create s.env dto by)
    create_entry-Preserves dto by = law.create_entry dto by

    update_entry-Preserves : (id : Ident) (dto : UpdateWhitelistDto) → Preserves Q (update id dto)
    update_entry-Preserves id dto = law.update_entry id dto

    remove_entry-Preserves : (id : Ident) → Preserves Q (intaektok_be.Admin.remove id)
    remove_entry-Preserves id = law.remove_entry id

    approve-Preserves : (id by : Ident) → Preserves Q (approve_access_request s.env id by)
    approve-Preserves id by = law.approve id by

    ruleset handle_rules = (
      preserve_rules, membership-Preserves, of_Quiet, quiet_rules, create_message-Preserves,
      get_room_view-Preserves, update_room-Preserves, update_member_role-Preserves,
      add_members-Preserves, remove_member-Preserves, create_room-Preserves, soft_delete-Preserves,
      list_rooms-Preserves, login-Preserves, create_entry-Preserves, update_entry-Preserves,
      remove_entry-Preserves, approve-Preserves,
    )

    handle-Preserves : (req : Request) → Preserves Q (handle s c req)
    unfolding handle intaektok_be.Api.Rooms.list intaektok_be.Api.Rooms.create
        intaektok_be.Api.Rooms.detail intaektok_be.Api.Rooms.update
        intaektok_be.Api.Rooms.add_members intaektok_be.Api.Rooms.update_member_role
        intaektok_be.Api.Rooms.remove_member intaektok_be.Api.Messages.list
        intaektok_be.Api.Messages.send intaektok_be.Api.Messages.remove
        intaektok_be.Api.Messages.read intaektok_be.Api.Accounts.kakao
        intaektok_be.Api.Accounts.refresh intaektok_be.Api.Accounts.logout
        intaektok_be.Api.Accounts.me intaektok_be.Api.Accounts.create_profile
        intaektok_be.Api.Accounts.update_profile intaektok_be.Api.Accounts.register
        intaektok_be.Api.Accounts.remove intaektok_be.Api.Directory.search
        intaektok_be.Api.Directory.get_profile intaektok_be.Api.Directory.create_upload_url
        intaektok_be.Api.Directory.complete intaektok_be.Api.Directory.get_media
        intaektok_be.Api.Whitelist.create intaektok_be.Api.Whitelist.list
        intaektok_be.Api.Whitelist.update intaektok_be.Api.Whitelist.remove
        intaektok_be.Api.Whitelist.list_access_requests intaektok_be.Api.Whitelist.approve
        intaektok_be.Api.Whitelist.dismiss intaektok_be.Admin.Listing.list
        intaektok_be.Admin.Listing.list_access_requests
    handle-Preserves (auth_kakao a1 b1) = search handle_rules depth 20
    handle-Preserves (auth_refresh a1) = search handle_rules depth 20
    handle-Preserves (auth_logout a1) = search handle_rules depth 20
    handle-Preserves auth_me = search handle_rules depth 20
    handle-Preserves (profile_create a1) = search handle_rules depth 20
    handle-Preserves (profile_update a1) = search handle_rules depth 20
    handle-Preserves (push_register a1) = search handle_rules depth 20
    handle-Preserves (push_remove a1) = search handle_rules depth 20
    handle-Preserves (users_search a1 b1) = search handle_rules depth 20
    handle-Preserves (users_profile a1) = search handle_rules depth 20
    handle-Preserves (media_upload_url a1) = search handle_rules depth 20
    handle-Preserves (media_complete a1) = search handle_rules depth 20
    handle-Preserves (media_get a1) = search handle_rules depth 20
    handle-Preserves (rooms_list a1) = search handle_rules depth 20
    handle-Preserves (rooms_create a1) = search handle_rules depth 20
    handle-Preserves (rooms_detail a1) = search handle_rules depth 20
    handle-Preserves (rooms_update a1 b1) = search handle_rules depth 20
    handle-Preserves (rooms_add_members a1 b1) = search handle_rules depth 20
    handle-Preserves (rooms_update_role a1 b1 c1) = search handle_rules depth 20
    handle-Preserves (rooms_remove_member a1 b1) = search handle_rules depth 20
    handle-Preserves (messages_list a1 b1) = search handle_rules depth 20
    handle-Preserves (messages_send a1 b1) = search handle_rules depth 20
    handle-Preserves (messages_remove a1 b1) = search handle_rules depth 20
    handle-Preserves (messages_read a1 b1) = search handle_rules depth 20
    handle-Preserves (whitelist_create a1) = search handle_rules depth 20
    handle-Preserves (whitelist_list a1 b1) = search handle_rules depth 20
    handle-Preserves (whitelist_update a1 b1) = search handle_rules depth 20
    handle-Preserves (whitelist_remove a1) = search handle_rules depth 20
    handle-Preserves (requests_list a1) = search handle_rules depth 20
    handle-Preserves (requests_approve a1) = search handle_rules depth 20
    handle-Preserves (requests_dismiss a1) = search handle_rules depth 20

  module _ (s : Server) (law : Law s.env Q) where
    bearer-Preserves : (token : Option Text) → Preserves Q (authenticate_bearer s.jwt token)
    bearer-Preserves token = of_Quiet s.env law _ (bearer-Quiet s.jwt token)

    can_activate-Preserves :
        (token : Option Text) (room : Ident) (g : Guard) (c : Caller)
        → Preserves Q (can_activate s token room g c)
    unfolding can_activate
    can_activate-Preserves token room Guard.jwt_auth c =
        search (preserve_rules, bearer-Preserves) depth 20
    can_activate-Preserves token room Guard.onboarded c =
        search (preserve_rules, of_Quiet, onboarded_guard-Quiet) depth 20
    can_activate-Preserves token room Guard.admin c =
        search (preserve_rules, of_Quiet, admin_guard-Quiet) depth 20
    can_activate-Preserves token room Guard.room_member c =
        search (preserve_rules, of_Quiet, room_member_guard-Quiet) depth 20

    run_guards-Preserves :
        (token : Option Text) (room : Ident) (gs : List Guard) (c : Caller)
        → Preserves Q (run_guards s token room gs c)
    unfolding run_guards
    run_guards-Preserves token room [] c = search preserve_rules
    run_guards-Preserves token room (g ∷ gs) c =
        bind-Preserves (can_activate s token room g c) (λ d. run_guards s token room gs d)
          (can_activate-Preserves token room g c) (λ d. run_guards-Preserves token room gs d)

  pub serve-Preserves :
      (s : Server) (token : Option Text) (req : Request)
      → Law s.env Q
      → Preserves Q (serve s token req)
  unfolding serve
  serve-Preserves s token req law =
      bind-Preserves (run_guards s token (room_of req) (guards (access_of req)) nobody)
        (λ c. handle s c req)
        (run_guards-Preserves s law token (room_of req) (guards (access_of req)) nobody)
        (λ c. handle-Preserves s law c req)
