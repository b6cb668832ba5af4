-- ===== src/Rooms/View.antt =====
-- src/rooms/rooms.service.ts: `getRoomView` and what it is built from, and `emitLifecycle`.
pub mod Reads
use intaektok_be.Prelude.{
  ℕ, Bool, true, false, not, ◌&&◌, Option, none, some, List, [], ◌∷◌, ◌++◌, map, Ident, Text, codes,
  ◌==◌, if◌then◌else◌, find, select, truthy, is_some,
}
use intaektok_be.Prisma.{Room, RoomMember, Message, Profile}
use intaektok_be.Common.Errors.{not_found, thrown}
use intaektok_be.Common.Views.{RoomView, MemberView, LastMessage}
use intaektok_be.Common.Events.{Event, RoomLifecycleEvent}
use intaektok_be.World.{World, Call, pure, gets, or_throw, ◌>>=◌, ◌>>◌, emit}
use intaektok_be.Env.{Env}
use intaektok_be.Messages.Preview.{message_preview}
use intaektok_be.Messages.Checks.{in_room}
use intaektok_be.Messages.Read.{count_unread}
use intaektok_be.Messages.Create.{nickname_of}
use intaektok_be.Messages.History.{history}
use intaektok_be.Media.{UrlMap, map_get, resolve_avatar_urls}

abbrev pub find_room : Ident → World → Option Room
find_room room w = find (λ (r : Room). r.id == room) w.rooms

abbrev pub find_profile : Ident → World → Option Profile
find_profile user w = find (λ (p : Profile). p.user_id == user) w.profiles

abbrev pub avatar_of : Option Profile → Option Ident
avatar_of none = none
avatar_of (some p) = p.avatar_media_id

-- `id ? (avatarMap.get(id) ?? null) : null`
abbrev url_of : UrlMap → Option Ident → Option Text
url_of urls none = none
url_of urls (some i) = if i == 0 then none else map_get i urls

unfoldable pub active_members : Ident → World → List RoomMember
active_members room w = select (in_room room) w.members

abbrev pub first {ℓ} : {A : Type ℓ} → List A → Option A
first [] = none
first (x ∷ xs) = some x

-- The ids that `collectAvatars` hands over for one room.
abbrev pub avatar_ids : Room → List RoomMember → World → List (Option Ident)
avatar_ids r ms w =
    r.avatar_media_id ∷ map (λ (m : RoomMember). avatar_of (find_profile m.user_id w)) ms

abbrev member_view : UrlMap → World → RoomMember → MemberView
member_view urls w m = record {
  user_id = m.user_id;
  nickname = nickname_of (find_profile m.user_id w);
  avatar_url = url_of urls (avatar_of (find_profile m.user_id w));
  role = m.role;
}

abbrev preview_of : Env → Message → Option Text
preview_of env m =
    if is_some m.deleted_at
    then some (codes "삭제된 메시지입니다.")
    else message_preview env m.kind m.content

-- The last message of a view, if there is one; a SYSTEM payload that does not parse throws.
abbrev last_message_of : Env → Option Message → Call (Option LastMessage)
last_message_of env none = pure none
last_message_of env (some m) = do
  preview ← or_throw (preview_of env m) thrown
  pure (some (record { seq = m.seq; kind = m.kind; preview = preview; created_at = m.created_at }))

unfoldable pub build_view :
    Env → Room → List RoomMember → Option Message → UrlMap → ℕ → Call RoomView
build_view env r ms last urls unread = do
  views ← gets (λ w. map (member_view urls w) ms)
  message ← last_message_of env last
  pure (record {
    id = r.id;
    kind = r.kind;
    name = r.name;
    avatar_url = url_of urls r.avatar_media_id;
    created_by = r.created_by;
    created_at = r.created_at;
    last_message_at = r.last_message_at;
    members = views;
    last_message = message;
    unread_count = unread;
  })

-- `membership ? await countUnread(roomId, requesterId, membership.lastReadSeq) : 0`
abbrev unread_of : Ident → Option RoomMember → World → ℕ
unread_of room none w = 0
unread_of room (some m) w = count_unread room m.user_id m.last_read_seq w

-- The view of a room that was found.
unfoldable pub view_of : Env → Ident → Ident → Room → Call RoomView
view_of env room requester r w =
    let ms = active_members room w in
    let urls = resolve_avatar_urls env (avatar_ids r ms w) w in
    let unread = unread_of room (find (λ (m : RoomMember). m.user_id == requester) ms) w in
    build_view env r ms (first (history room w)) urls unread w

unfoldable pub get_room_view : Env → Ident → Ident → Call RoomView
get_room_view env room requester = do
  found ← gets (find_room room)
  r ← or_throw found (not_found "채팅방을 찾을 수 없습니다.")
  view_of env room requester r

abbrev id_or : Option Ident → Ident → Ident
id_or none i = i
id_or (some j) i = j

unfoldable pub emit_lifecycle :
    Env → (RoomLifecycleEvent → Event) → Ident → List Ident → Call (Unit {0})
emit_lifecycle env event room ids = do
  view ← get_room_view env room (id_or (first ids) room)
  emit (event (record { room = view; room_id = room; member_user_ids = ids }))
