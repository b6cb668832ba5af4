-- ===== src/Users.antt =====
-- src/users/users.service.ts: who may see a profile, and the search for users.
pub mod Visibility
pub mod Search
use intaektok_be.Prelude.{
  ℕ, suc, Bool, true, false, not, ◌&&◌, ◌||◌, Option, none, some, List, [], ◌∷◌, map, Ident, Text,
  ◌==◌, ltb, if◌then◌else◌, find, select, take, length, is_some,
}
use intaektok_be.Prisma.{Profile, User, RoomMember, is_active}
use intaektok_be.Common.Errors.{forbidden, not_found, thrown}
use intaektok_be.World.{World, Call, pure, gets, or_throw, ◌>>=◌, ◌>>◌, throw_if}
use intaektok_be.Env.{Env}
use intaektok_be.Media.{belongs_to, resolve_avatar_url, resolve_avatar_urls, UrlMap, map_get}
use intaektok_be.Auth.Session.{find_user}
use intaektok_be.Messages.History.{Paginated}
use intaektok_be.Profile.{find_own}

abbrev pub shares : Ident → Ident → World → RoomMember → Bool
shares a b w m = (m.user_id == a && not (is_some m.left_at)) && belongs_to m.room_id b w

unfoldable pub share_room : Ident → Ident → World → Bool
share_room a b w = a == b || is_some (find (shares a b w) w.members)

pub record UserProfile : Type 0 where
  pub id : Ident
  pub nickname : Text
  pub status_message : Option Text
  pub avatar_url : Option Text
  pub last_seen_at : Option ℕ

abbrev seen_of : Option User → Option ℕ
seen_of none = none
seen_of (some u) = u.last_seen_at

abbrev shown : Env → Ident → Profile → World → UserProfile
shown env target p w = record {
  id = target;
  nickname = p.nickname;
  status_message = p.status_message;
  avatar_url = resolve_avatar_url env p.avatar_media_id w;
  last_seen_at = seen_of (find_user target w);
}

unfoldable pub get_profile : Env → Ident → Ident → Call UserProfile
get_profile env target requester = do
  allowed ← gets (share_room requester target)
  throw_if (not allowed) (forbidden "해당 사용자의 프로필을 조회할 권한이 없습니다.")
  found ← gets (find_own target)
  p ← or_throw found (not_found "프로필을 찾을 수 없습니다.")
  gets (shown env target p)

pub record PublicUser : Type 0 where
  pub id : Ident
  pub nickname : Text
  pub avatar_url : Option Text

abbrev is_active_user : Option User → Bool
is_active_user none = false
is_active_user (some u) = is_active u.status

-- `userId: { gt: cursor }`, in the database's order
abbrev after : Env → Option Ident → Profile → Bool
after env none p = true
after env (some c) p = c == 0 || not (env.db_le p.user_id c)

-- The `where` of the search.
abbrev pub matches : Env → Ident → Text → Option Ident → World → Profile → Bool
matches env requester q cursor w p =
    (env.ilike p.nickname q && is_some p.onboarded_at)
    && (not (p.user_id == requester) && is_active_user (find_user p.user_id w))
    && after env cursor p

abbrev pub insert_asc : Env → Profile → List Profile → List Profile
insert_asc env p [] = p ∷ []
insert_asc env p (x ∷ xs) =
    if env.db_le p.user_id x.user_id then p ∷ x ∷ xs else x ∷ insert_asc env p xs

-- `orderBy: { userId: 'asc' }`
abbrev pub order_asc : Env → List Profile → List Profile
order_asc env [] = []
order_asc env (p ∷ ps) = insert_asc env p (order_asc env ps)

-- `p.avatarMediaId ? (avatarMap.get(p.avatarMediaId) ?? null) : null`
abbrev url_of : UrlMap → Option Ident → Option Text
url_of urls none = none
url_of urls (some i) = if i == 0 then none else map_get i urls

abbrev pub public_user : UrlMap → Profile → PublicUser
public_user urls p = record {
  id = p.user_id;
  nickname = p.nickname;
  avatar_url = url_of urls p.avatar_media_id;
}

abbrev pub last_id : List Profile → Option Ident
last_id [] = none
last_id (p ∷ []) = some p.user_id
last_id (p ∷ x ∷ xs) = last_id (x ∷ xs)

abbrev pub found_rows : Env → Ident → Text → Option Ident → ℕ → World → List Profile
found_rows env requester q cursor limit w =
    take (suc limit) (order_asc env (select (matches env requester q cursor w) w.profiles))

unfoldable pub search : Env → Ident → Text → Option Ident → ℕ → Call (Paginated PublicUser)
search env requester q cursor limit = do
  rows ← gets (found_rows env requester q cursor limit)
  let more = ltb limit (length rows)
  let page = if more then take limit rows else rows
  urls ← gets (resolve_avatar_urls env (map (λ (p : Profile). p.avatar_media_id) page))
  pure (record {
    items = map (public_user urls) page;
    next_cursor = if more then last_id page else none;
  })
