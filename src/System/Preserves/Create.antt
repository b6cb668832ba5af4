-- ===== src/System/Preserves/Create.antt =====
-- On what is kept by `createRoom` (src/rooms/rooms.service.ts).
use intaektok_be.Prelude.{refl, arith}
use intaektok_be.Prisma.{RoomMember}
use intaektok_be.Prelude.{Option, none, some, List, [], ◌∷◌, Ident}
use intaektok_be.Prisma.{Room, RoomType, direct, group}
use intaektok_be.Common.Views.{RoomView}
use intaektok_be.World.{World, Result, Call, modify}
use intaektok_be.Env.{Env}
use intaektok_be.Rooms.Create.{
  CreateRoomDto, find_direct, direct_key, reactivate_direct, direct_room, add_direct, opened_direct,
  insert_direct, open_direct, create_direct, add_group, create_group, create_room,
}
use intaektok_be.System.Preserves.{
  Preserves, Law, members-Preserves, preserve_rules, throw-Preserves,
}
use intaektok_be.System.Preserves.Rooms.{
  get_room_view-Preserves, emit_lifecycle-Preserves, active_users-Preserves, owned-Preserves,
  system_message-Preserves,
}

module _ {Q : World → Type 0} where
  module _ (env : Env) (law : Law env Q) where
    add_group-Preserves :
        (creator : Ident) (ids : List Ident) (r : Room)
        → Preserves Q (modify (add_group creator ids r))
    add_group-Preserves creator ids r = record {
      at = λ w h. law.calm w _ (refl, refl, refl, omega arith) h;
    }

    set_members-Preserves :
        (f : World → List RoomMember) → Preserves Q (modify (λ w. record w { members = f w }))
    set_members-Preserves f = members-Preserves env law f

    ruleset create_rules = (
      preserve_rules, set_members-Preserves, get_room_view-Preserves, emit_lifecycle-Preserves,
      active_users-Preserves, owned-Preserves, add_group-Preserves, system_message-Preserves,
    )

    create_group-Preserves :
        (creator : Ident) (dto : CreateRoomDto) → Preserves Q (create_group env creator dto)
    unfolding create_group
    create_group-Preserves creator dto = search create_rules depth 20

    reactivate-Preserves : (room a b : Ident) → Preserves Q (reactivate_direct env room a b)
    unfolding reactivate_direct
    reactivate-Preserves room a b = search create_rules depth 20

    opened-Preserves : (a b : Ident) (r : Room) → Preserves Q (opened_direct env a b r)
    unfolding opened_direct
    opened-Preserves a b r = search create_rules depth 20

    insert-Preserves : (a b : Ident) → Preserves Q (insert_direct env a b)
    unfolding insert_direct
    insert-Preserves a b = record {
      at = λ w h.
          let v = env.others 0 w in
          inserted (find_direct (direct_key env a b) v) v (law.others 0 w h);
    }
      where
        inserted :
            (o : Option Room) (v : World)
            → Q v
            → Q (
                (elim o as (λ _. Result RoomView × World) [
                  | some r ↦ reactivate_direct env r.id a b v
                  | none ↦
                      let r = direct_room env a (direct_key env a b) v in
                      opened_direct env a b r (add_direct a b r v)
                ]).1)
        inserted (some r) v h = (reactivate-Preserves r.id a b).at v h
        inserted none v h =
            (opened-Preserves a b (direct_room env a (direct_key env a b) v)).at _
              (law.calm v _ (refl, refl, refl, omega arith) h)

    open-Preserves : (a b : Ident) → Preserves Q (open_direct env a b)
    unfolding open_direct
    open-Preserves a b = record { at = λ w h. opened (find_direct (direct_key env a b) w) w h }
      where
        opened :
            (o : Option Room) (w : World)
            → Q w
            → Q (
                (elim o as (λ _. Result RoomView × World) [
                  | some r ↦ reactivate_direct env r.id a b w
                  | none ↦ insert_direct env a b w
                ]).1)
        opened (some r) w h = (reactivate-Preserves r.id a b).at w h
        opened none w h = (insert-Preserves a b).at w h

    create_direct-Preserves :
        (creator : Ident) (ids : List Ident) → Preserves Q (create_direct env creator ids)
    unfolding create_direct
    create_direct-Preserves creator [] = throw-Preserves _
    create_direct-Preserves creator (other ∷ []) = search (create_rules, open-Preserves) depth 20
    create_direct-Preserves creator (other ∷ x ∷ xs) = throw-Preserves _

    pub create_room-Preserves :
        (creator : Ident) (dto : CreateRoomDto) → Preserves Q (create_room env creator dto)
    unfolding create_room
    create_room-Preserves creator dto = by_kind dto.kind
      where
        by_kind :
            (kind : RoomType)
            → Preserves Q (elim kind as (λ _. Call RoomView) [
              | direct ↦ create_direct env creator dto.member_user_ids
              | group ↦ create_group env creator dto
            ])
        by_kind direct = create_direct-Preserves creator dto.member_user_ids
        by_kind group = create_group-Preserves creator dto
