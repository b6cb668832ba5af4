-- ===== src/Messages/Read.antt =====
-- src/messages/messages.service.ts: read receipts and unread counts. `markRead` takes the number
-- that the controller or the gateway has read from the request; the gateway's `Number` of another
-- value is `NaN`, on which `BigInt` throws before anything is written.
pub mod Monotone
use intaektok_be.Prelude.{
  ℕ, Bool, true, false, not, ◌&&◌, Ident, ◌==◌, ltb, if◌then◌else◌, count, update_where, is_some,
}
use intaektok_be.Prisma.{Message, RoomMember}
use intaektok_be.Common.Events.{message_read}
use intaektok_be.World.{World, Call, pure, gets, ◌>>=◌, ◌>>◌, modify, emit, when}
use intaektok_be.Messages.Checks.{in_room, get_active_member_ids}

-- The rows that `updateMany` advances: of an active member who has read less.
abbrev pub advances : Ident → Ident → ℕ → RoomMember → Bool
advances room user n r = in_room room r && (r.user_id == user && ltb r.last_read_seq n)

unfoldable pub mark_read : Ident → Ident → ℕ → Call (Unit {0})
mark_read room user n = do
  matched ← gets (λ w. count (advances room user n) w.members)
  modify λ w. record w {
    members =
        update_where (advances room user n) (λ (r : RoomMember). record r { last_read_seq = n })
          w.members;
  }
  when (not (matched == 0)) (do
    ids ← gets (get_active_member_ids room)
    emit (
        message_read
          (record { room_id = room; user_id = user; last_read_seq = n; member_user_ids = ids })))

abbrev pub is_unread : Ident → Ident → ℕ → Message → Bool
is_unread room user last m =
    m.room_id == room
    && (ltb last m.seq && (not (is_some m.deleted_at) && not (m.sender_id == user)))

unfoldable pub count_unread : Ident → Ident → ℕ → World → ℕ
count_unread room user last w = count (is_unread room user last) w.messages
