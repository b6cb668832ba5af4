-- ===== src/System/Preserves/Rooms.antt =====
-- On what is kept by the calls of src/rooms/rooms.service.ts on a room that is there.
use intaektok_be.World.{World, modify}
use intaektok_be.Prelude.{refl, arith}
use intaektok_be.Prelude.{ℕ, Option, List, Ident, sym, subst}
use intaektok_be.Prisma.{MemberRole, Room, RoomMember}
use intaektok_be.Common.Events.{Event, RoomLifecycleEvent}
use intaektok_be.Env.{Env}
use intaektok_be.Messages.SystemMessage.{SystemMessagePayload}
use intaektok_be.Messages.Checks.{CreateMessageParams}
use intaektok_be.Messages.Create.{create_message, create_system_message}
use intaektok_be.Rooms.View.{get_room_view, emit_lifecycle}
use intaektok_be.Rooms.View.Reads.{get_room_view_reads, emit_lifecycle-Keeps}
use intaektok_be.Rooms.Checks.{assert_active_users, require_group, require_role}
use intaektok_be.Rooms.Manage.{
  UpdateRoomDto, announce, admit_call, add_members, update_room, update_member_role,
}
use intaektok_be.Media.{assert_owned_media_or_null}
use intaektok_be.System.Quiet.{
  require_group-Quiet, assert_active_users-Quiet, assert_owned-Quiet, assert_may_remove-Quiet,
  leave-Quiet, admit_call-Quiet,
}
use intaektok_be.Rooms.Leave.{
  leave, assert_may_remove, tell_left, announce_left, tell_removed, remove_found, remove_member,
}
use intaektok_be.System.Preserves.{
  Preserves, Law, of_Quiet, members-Preserves, rooms-Preserves, preserve_rules,
}

module _ {Q : World → Type 0} where
  pub get_room_view-Preserves :
      (env : Env) (room user : Ident) → Preserves Q (get_room_view env room user)
  get_room_view-Preserves env room user = record {
    at = λ w h. subst Q (sym (get_room_view_reads env room user w)) h;
  }

  module _ (env : Env) (law : Law env Q) where
    pub emit_lifecycle-Preserves :
        (e : RoomLifecycleEvent → Event) (room : Ident) (ids : List Ident)
        → Preserves Q (emit_lifecycle env e room ids)
    emit_lifecycle-Preserves e room ids = record {
      at =
          emit_lifecycle-Keeps env Q e room ids
            (λ w _ h. law.calm w _ (refl, refl, refl, omega arith) h);
    }

    announce-Preserves : (room : Ident) → Preserves Q (announce env room)
    unfolding announce
    announce-Preserves room = search (preserve_rules, emit_lifecycle-Preserves)

    require_role-Preserves :
        (r : MemberRole) (rs : List MemberRole) → Preserves Q (require_role r rs)
    unfolding require_role
    require_role-Preserves r rs = search preserve_rules

    require_group-Preserves : (room : Ident) → Preserves Q (require_group room)
    require_group-Preserves room = of_Quiet env law (require_group room) (require_group-Quiet room)

    pub active_users-Preserves : (ids : List Ident) → Preserves Q (assert_active_users ids)
    active_users-Preserves ids =
        of_Quiet env law (assert_active_users ids) (assert_active_users-Quiet ids)

    pub owned-Preserves :
        (m : Option Ident) (u : Ident) → Preserves Q (assert_owned_media_or_null m u)
    owned-Preserves m u = of_Quiet env law (assert_owned_media_or_null m u) (assert_owned-Quiet m u)

    admit_call-Preserves :
        (room : Ident) (head : ℕ) (rows : List RoomMember) (us : List Ident)
        → Preserves Q (admit_call room head rows us)
    admit_call-Preserves room head rows us =
        of_Quiet env law (admit_call room head rows us) (admit_call-Quiet room head rows us)

    leave-Preserves :
        (room target : Ident) (r : Room) (t : RoomMember) → Preserves Q (leave room target r t)
    leave-Preserves room target r t =
        of_Quiet env law (leave room target r t) (leave-Quiet room target r t)

    may_remove-Preserves :
        (room actor : Ident) (role : MemberRole) (target : Ident)
        → Preserves Q (assert_may_remove room actor role target)
    may_remove-Preserves room actor role target =
        of_Quiet env law (assert_may_remove room actor role target)
          (assert_may_remove-Quiet room actor role target)

    pub create_message-Preserves : (p : CreateMessageParams) → Preserves Q (create_message env p)
    create_message-Preserves p = law.create p

    pub system_message-Preserves :
        (room actor : Ident) (payload : SystemMessagePayload)
        → Preserves Q (create_system_message env room actor payload)
    unfolding create_system_message
    system_message-Preserves room actor payload = search (preserve_rules, create_message-Preserves)

    set_members-Preserves :
        (f : World → List RoomMember) → Preserves Q (modify (λ w. record w { members = f w }))
    set_members-Preserves f = members-Preserves env law f

    set_rooms-Preserves :
        (f : World → List Room) → Preserves Q (modify (λ w. record w { rooms = f w }))
    set_rooms-Preserves f = rooms-Preserves env law f

    ruleset room_rules = (
      preserve_rules, set_members-Preserves, set_rooms-Preserves, require_group-Preserves,
      active_users-Preserves, owned-Preserves, require_role-Preserves, announce-Preserves,
      admit_call-Preserves, leave-Preserves, may_remove-Preserves, emit_lifecycle-Preserves,
      get_room_view-Preserves, system_message-Preserves,
    )

    pub update_room-Preserves :
        (room actor : Ident) (role : MemberRole) (dto : UpdateRoomDto)
        → Preserves Q (update_room env room actor role dto)
    unfolding update_room
    update_room-Preserves room actor role dto = search room_rules depth 20

    pub update_member_role-Preserves :
        (room actor : Ident) (role : MemberRole) (target : Ident) (r : MemberRole)
        → Preserves Q (update_member_role env room actor role target r)
    unfolding update_member_role
    update_member_role-Preserves room actor role target r = search room_rules depth 20

    pub add_members-Preserves :
        (room actor : Ident) (role : MemberRole) (ids : List Ident)
        → Preserves Q (add_members env room actor role ids)
    unfolding add_members
    add_members-Preserves room actor role ids = search room_rules depth 20

    tell_removed-Preserves :
        (room actor target : Ident) (r : Room) → Preserves Q (tell_removed env room actor target r)
    unfolding tell_removed tell_left announce_left
    tell_removed-Preserves room actor target r = search room_rules depth 20

    remove_found-Preserves :
        (room actor target : Ident) (x : Room × RoomMember)
        → Preserves Q (remove_found env room actor target x)
    unfolding remove_found
    remove_found-Preserves room actor target (r, t) =
        search (room_rules, tell_removed-Preserves) depth 20

    pub remove_member-Preserves :
        (room actor : Ident) (role : MemberRole) (target : Ident)
        → Preserves Q (remove_member env room actor role target)
    unfolding remove_member
    remove_member-Preserves room actor role target =
        search (room_rules, remove_found-Preserves) depth 20
