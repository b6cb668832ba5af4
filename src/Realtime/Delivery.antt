-- ===== src/Realtime/Delivery.antt =====
-- On who receives what src/realtime/realtime.gateway.ts sends.
use intaektok_be.Prelude.{
  Bool, false, not, ◌&&◌, ◌||◌, List, [], ◌∷◌, Ident, ◌==◌, find, select, contains, is_some, ◌≡◌,
  refl, ap, ◌∙◌, inl, inr, arith, Bool-cases, contains-select, contains-map-select,
}
use intaektok_be.Prisma.{RoomMember}
use intaektok_be.World.{World}
use intaektok_be.Messages.Checks.{find_member, is_absent, in_room, get_active_member_ids}
use intaektok_be.Realtime.Socket.{Packet, Send, to_users, disconnect_user, refuse, emit_to_users}
use intaektok_be.Realtime.Handlers.{relay_typing}

abbrev pub is_for : Ident → Send → Bool
is_for u (to_users us p) = contains us u
is_for u (disconnect_user v) = false
is_for u (refuse s) = false

-- Whether some packet goes to the user.
abbrev pub reaches : Ident → List Send → Bool
reaches u [] = false
reaches u (s ∷ ss) = is_for u s || reaches u ss

pub reaches-emit_to_users :
    (u : Ident) (us : List Ident) (p : Packet) → reaches u (emit_to_users us p) ≡ contains us u
reaches-emit_to_users u [] p = refl
reaches-emit_to_users u (v ∷ us) p = ground arith

-- The user has a row in the room, and has not left it.
abbrev pub is_in : Ident → Ident → World → Bool
is_in room u w = is_some (find (λ (m : RoomMember). in_room room m && m.user_id == u) w.members)

-- A typing notice reaches exactly the active members of the room but its sender, and no one unless
-- the sender is an active member.
reaches-relay_typing :
    (user room : Ident) (is_typing : Bool) (w : World) (u : Ident)
    → reaches u (relay_typing user room is_typing w)
      ≡ (not (is_absent (find_member room user w)) && (is_in room u w && not (u == user)))
unfolding relay_typing get_active_member_ids
reaches-relay_typing user room is_typing w u =
    elim (Bool-cases (is_absent (find_member room user w))) [
      | inl e ↦ rw e refl
      | inr e ↦ rw e (
          reaches-emit_to_users u (select (λ v. not (v == user)) (get_active_member_ids room w))
            (Packet.typing room user is_typing)
          ∙ contains-select (λ v. not (v == user)) (get_active_member_ids room w) u
          ∙ ap (λ b. b && not (u == user))
              (contains-map-select (λ (m : RoomMember). m.user_id) (in_room room) w.members u))
    ]
