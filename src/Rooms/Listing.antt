-- ===== src/Rooms/Listing.antt =====
-- src/rooms/rooms.service.ts: `listRooms`, the rooms of a user by their latest message.
use intaektok_be.Prelude.{
  ℕ, suc, Bool, true, false, not, ◌&&◌, Option, none, some, List, [], ◌∷◌, ◌++◌, Ident, ◌==◌, ltb,
  leb, if◌then◌else◌, select, take, length, is_some,
}
use intaektok_be.Prisma.{Room, RoomMember}
use intaektok_be.Common.Views.{RoomView}
use intaektok_be.World.{World, Call, pure, gets, ◌>>=◌}
use intaektok_be.Env.{Env}
use intaektok_be.Messages.History.{Paginated, history}
use intaektok_be.Messages.Read.{count_unread}
use intaektok_be.Media.{UrlMap, resolve_avatar_urls}
use intaektok_be.Rooms.View.{find_room, active_members, avatar_ids, first, build_view}

-- A membership with its room.
pub record Membership : Type 0 where
  pub member : RoomMember
  pub room : Room

abbrev pub is_mine : Ident → RoomMember → Bool
is_mine user m = m.user_id == user && not (is_some m.left_at)

abbrev with_room : RoomMember → Option Room → List Membership
with_room m none = []
with_room m (some r) = record { member = m; room = r } ∷ []

abbrev pub joined_rooms : List RoomMember → World → List Membership
joined_rooms [] w = []
joined_rooms (m ∷ ms) w = with_room m (find_room m.room_id w) ++ joined_rooms ms w

-- `lastMessageAt: { lt: cursorDate }`, which no null passes.
abbrev pub is_earlier : Option ℕ → Option ℕ → Bool
is_earlier none t = true
is_earlier (some c) none = false
is_earlier (some c) (some t) = ltb t c

-- `{ sort: 'desc', nulls: 'last' }`
abbrev pub comes_before : Option ℕ → Option ℕ → Bool
comes_before none none = true
comes_before none (some b) = false
comes_before (some a) none = true
comes_before (some a) (some b) = leb b a

abbrev pub insert_recent : Membership → List Membership → List Membership
insert_recent x [] = x ∷ []
insert_recent x (y ∷ ys) =
    if comes_before x.room.last_message_at y.room.last_message_at
    then x ∷ y ∷ ys
    else y ∷ insert_recent x ys

abbrev pub recent_first : List Membership → List Membership
recent_first [] = []
recent_first (x ∷ xs) = insert_recent x (recent_first xs)

-- `memberships`
unfoldable pub memberships_of : Ident → Option ℕ → ℕ → World → List Membership
memberships_of user cursor limit w = take (suc limit) (
    recent_first (
      select (λ (x : Membership). is_earlier cursor x.room.last_message_at)
        (joined_rooms (select (is_mine user) w.members) w)))

-- `collectAvatars`
abbrev collect_avatars : List Membership → World → List (Option Ident)
collect_avatars [] w = []
collect_avatars (x ∷ xs) w =
    avatar_ids x.room (active_members x.room.id w) w ++ collect_avatars xs w

unfoldable pub item_of : Env → Ident → UrlMap → Membership → Call RoomView
item_of env user urls x w =
    build_view env x.room (active_members x.room.id w) (first (history x.room.id w)) urls
      (count_unread x.room.id user x.member.last_read_seq w) w

-- `Promise.all` over the page
unfoldable pub items_of : Env → Ident → UrlMap → List Membership → Call (List RoomView)
items_of env user urls [] = pure []
items_of env user urls (x ∷ xs) = do
  view ← item_of env user urls x
  views ← items_of env user urls xs
  pure (view ∷ views)

-- `last.room.lastMessageAt`
abbrev last_at : List Membership → Option ℕ
last_at [] = none
last_at (x ∷ []) = x.room.last_message_at
last_at (x ∷ y ∷ ys) = last_at (y ∷ ys)

unfoldable pub list_rooms : Env → Ident → Option ℕ → ℕ → Call (Paginated RoomView)
list_rooms env user cursor limit = do
  memberships ← gets (memberships_of user cursor limit)
  let more = ltb limit (length memberships)
  let page = if more then take limit memberships else memberships
  urls ← gets (λ w. resolve_avatar_urls env (collect_avatars page w) w)
  items ← items_of env user urls page
  pure (record { items = items; next_cursor = if more then last_at page else none })
