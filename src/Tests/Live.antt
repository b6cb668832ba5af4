-- ===== src/Tests/Live.antt =====
-- The theorems on presence, notifications and sockets.
use intaektok_be.Prelude.{
  Option, Text, Lacks, text_eq, lower, codes, true, not, ◌&&◌, none, some, [], ◌∷◌, ◌++◌, contains,
  find, is_some, ◌==◌, ◌≡◌, refl, ◌↔◌,
}
use intaektok_be.Common.Events.{MessageCreatedEvent}
use intaektok_be.Prisma.{PushToken, is_system}
use intaektok_be.Messages.Persist.{serialize}
use intaektok_be.Presence.{add_connection, is_online}
use intaektok_be.Presence.Online.{
  Presence, start, connected, broadcast, Alternates, presence-Alternates,
}
use intaektok_be.Push.{sent_to}
use intaektok_be.Push.Targets.{is_wanted, sent_to_iff}
use intaektok_be.Users.{share_room}
use intaektok_be.Users.Visibility.{InOneRoom, co_member_ids_iff}
use intaektok_be.Realtime.Socket.{Client, co_member_ids}
use intaektok_be.Realtime.Connection.{authenticate, bearer_from_header}
use intaektok_be.Realtime.Connection.Lifecycle.{returned, authenticate_agrees}
use intaektok_be.Tests.{jwt, world, text}

presence-Alternates_example :
    ((add_connection 1 7 world).1.sockets 1 ≡ 7 ∷ [])
    × (is_online 1 (add_connection 1 7 world).1 ≡ true)
    × Alternates (broadcast (add_connection 1 7 world).0 Presence.online []) true
presence-Alternates_example =
    presence-Alternates 1 (add_connection 1 7 world).1 (7 ∷ [])
      (broadcast (add_connection 1 7 world).0 Presence.online [])
      (connected world [] [] 7 (start world refl) refl)

abbrev news : MessageCreatedEvent
news = record {
  message = serialize (text 21 2 2 72);
  member_user_ids = 1 ∷ 2 ∷ 3 ∷ [];
  preview = [];
  room_title = [];
}

sent_to_iff_example : contains (sent_to news world) 400 ≡ (
    not (is_system news.message.kind)
    && is_some (
        find
          (λ (t : PushToken). is_wanted news world t.user_id && t.fcm_token == 400)
          world.push_tokens))
sent_to_iff_example = sent_to_iff news world 400

co_member_ids_iff_example :
    (contains (co_member_ids 1 world) 3 ≡ share_room 1 3 world)
    × ((share_room 1 3 world ≡ true) ↔ InOneRoom 1 3 world)
co_member_ids_iff_example = co_member_ids_iff 1 3 world refl

authenticate_agrees_example :
    ((header : Option Text)
      → authenticate jwt (some (1 ∷ [])) header world
        ≡ returned (intaektok_be.Auth.Guards.authenticate jwt (1 ∷ []) world).0)
    × ((scheme : Text)
        → Lacks 32 scheme
        → Lacks 32 (1 ∷ [])
        → text_eq (lower scheme) (codes "bearer") ≡ true
        → authenticate jwt none (some (scheme ++ 32 ∷ 1 ∷ [])) world
          ≡ returned (intaektok_be.Auth.Guards.authenticate jwt (1 ∷ []) world).0)
authenticate_agrees_example = authenticate_agrees jwt 1 [] world

-- The header of Ann's token.
header : authenticate jwt none (some (codes "BEARER " ++ 1 ∷ [])) world ≡ some 1
unfolding authenticate bearer_from_header codes
header = refl

abbrev socket : Client
socket = record { id = 7; user_id = none; joined = []; connected = true }
