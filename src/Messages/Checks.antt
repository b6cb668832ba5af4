-- ===== src/Messages/Checks.antt =====
-- src/messages/messages.service.ts: the parameters of `createMessage`, and the checks that a
-- client's message passes before it is stored.
pub mod Reads
pub mod Sendable
use intaektok_be.Prelude.{
  ℕ, Bool, true, false, not, ◌&&◌, ◌||◌, Option, none, some, List, [], ◌∷◌, map, Ident, Text, ◌==◌,
  leb, if◌then◌else◌, find, select, truthy, is_some, is_space,
}
use intaektok_be.Prisma.{MessageType, text, image, gif, video, file, Message, RoomMember, Media}
use intaektok_be.Common.Errors.{forbidden, not_found, validation}
use intaektok_be.World.{World, Call, throw, gets, or_throw, ◌>>=◌, ◌>>◌, throw_if, when}

pub record CreateMessageParams : Type 0 where
  pub room_id : Ident
  pub sender_id : Ident
  pub kind : MessageType
  pub content : Option Text
  pub media_id : Option Ident
  pub reply_to_id : Option Ident
  pub client_message_id : Option Ident
  pub is_system : Bool

-- The row under the unique key of a room and a user, with whether it is an active member.
abbrev pub is_member_row : Ident → Ident → RoomMember → Bool
is_member_row room user r = r.room_id == room && r.user_id == user

abbrev pub in_room : Ident → RoomMember → Bool
in_room room r = r.room_id == room && not (is_some r.left_at)

abbrev pub find_member : Ident → Ident → World → Option RoomMember
find_member room user w = find (is_member_row room user) w.members

-- `!m || m.leftAt`
abbrev pub is_absent : Option RoomMember → Bool
is_absent none = true
is_absent (some r) = is_some r.left_at

unfoldable pub get_active_member_ids : Ident → World → List Ident
get_active_member_ids room w = map (λ (r : RoomMember). r.user_id) (select (in_room room) w.members)

unfoldable pub assert_active_member : Ident → Ident → Call (Unit {0})
assert_active_member room user = do
  m ← gets (find_member room user)
  throw_if (is_absent m) (forbidden "해당 채팅방의 멤버가 아닙니다.")

-- `!content.trim()`
abbrev pub is_blank : Text → Bool
is_blank [] = true
is_blank (c ∷ cs) = is_space c && is_blank cs

abbrev pub has_no_body : Option Text → Bool
has_no_body none = true
has_no_body (some t) = is_blank t

-- `MEDIA_TYPES`
abbrev pub is_media_type : MessageType → Bool
is_media_type image = true
is_media_type gif = true
is_media_type video = true
is_media_type file = true
is_media_type _ = false

unfoldable pub validate_payload : MessageType → Option Text → Option Ident → Call (Unit {0})
validate_payload text content media_id = throw_if (has_no_body content) (validation "본문이 비어 있습니다.")
validate_payload kind content media_id =
    if is_media_type kind
    then throw_if (not (truthy media_id)) (validation "미디어 메시지에는 mediaId가 필요합니다.")
    else throw (validation "허용되지 않은 메시지 타입입니다.")

abbrev pub find_media : Option Ident → World → Option Media
find_media none w = none
find_media (some i) w = find (λ (m : Media). m.id == i) w.media

unfoldable pub assert_owned_media : Option Ident → Ident → Call (Unit {0})
assert_owned_media media_id sender = do
  media ← gets (find_media media_id)
  m ← or_throw media (not_found "미디어를 찾을 수 없습니다.")
  throw_if (not (m.uploader_id == sender)) (forbidden "본인이 업로드한 미디어만 첨부할 수 있습니다.")

abbrev pub find_message : Option Ident → World → Option Message
find_message none w = none
find_message (some i) w = find (λ (m : Message). m.id == i) w.messages

abbrev pub is_elsewhere : Ident → Option Message → Bool
is_elsewhere room none = true
is_elsewhere room (some m) = not (m.room_id == room)

unfoldable pub assert_reply_target : Ident → Option Ident → Call (Unit {0})
assert_reply_target room reply_to = do
  target ← gets (find_message reply_to)
  throw_if (is_elsewhere room target) (validation "답장 대상 메시지가 올바르지 않습니다.")

-- The checks that a server-generated message skips.
unfoldable pub check_params : CreateMessageParams → Call (Unit {0})
check_params p = do
  assert_active_member p.room_id p.sender_id
  validate_payload p.kind p.content p.media_id
  when (truthy p.media_id) (assert_owned_media p.media_id p.sender_id)
  when (truthy p.reply_to_id) (assert_reply_target p.room_id p.reply_to_id)
