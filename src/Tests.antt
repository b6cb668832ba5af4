-- ===== src/Tests.antt =====
-- A small state of the server, on which the theorems are tried out.
pub mod Chat
pub mod Group
pub mod Access
pub mod Live
pub mod Web
pub mod System
use intaektok_be.Prelude.{
  ℕ, suc, Bool, true, false, Option, none, some, List, [], ◌∷◌, Ident, Text, ◌==◌, ◌&&◌, leb,
}
use intaektok_be.Prisma.{
  User, UserStatus, Profile, Whitelist, WhitelistStatus, AccessRequest, Room, RoomType, RoomMember,
  MemberRole, Message, MessageType, Media, MediaStatus, PushToken,
}
use intaektok_be.World.{World}
use intaektok_be.Env.{Env}
use intaektok_be.Messages.SystemMessage.{SystemMessagePayload}
use intaektok_be.Messages.Checks.{CreateMessageParams}
use intaektok_be.Auth.Jwt.{Jwt, TokenPayload, TokenKind}

abbrev pub env : Env
env = record {
  cuid = λ n. n;
  stringify = λ p. 83 ∷ [];
  parse = λ t. some (SystemMessagePayload.room_created 1);
  id_le = leb;
  db_le = leb;
  ilike = λ a b. true;
  read_url = λ k. 114 ∷ k;
  download_url = λ k. 100 ∷ k;
  upload_url = λ k m. 117 ∷ k;
  head_object = λ k. some none;
  uuid = λ n. n ∷ [];
  year_month = λ t. 50 ∷ [];
  names_seq = true;
  others = λ left w. w;
  unsend_window_sec = 300;
  max_bytes = 1000;
}

-- A token is the user's id, and for a refresh token the `jti` after it.
abbrev decoded : Text → Option TokenPayload
decoded [] = none
decoded (u ∷ []) = some (record { sub = u; kind = TokenKind.access; jti = 0 })
decoded (u ∷ j ∷ cs) = some (record { sub = u; kind = TokenKind.refresh; jti = j })

abbrev pub jwt : Jwt
jwt = record {
  sign_access = λ p. p.sub ∷ [];
  sign_refresh = λ p. p.sub ∷ p.jti ∷ [];
  verify_access = decoded;
  verify_refresh = decoded;
  new_jti = λ n. n;
}

abbrev pub user : Ident → UserStatus → User
user i s = record { id = i; kakao_id = 100; status = s; created_at = 0; last_seen_at = none }

abbrev pub ann : User
ann = record {
  id = 1;
  kakao_id = 101;
  status = UserStatus.active;
  created_at = 0;
  last_seen_at = none;
}

abbrev pub bob : User
bob = record {
  id = 2;
  kakao_id = 102;
  status = UserStatus.active;
  created_at = 0;
  last_seen_at = none;
}

abbrev pub cho : User
cho = record {
  id = 3;
  kakao_id = 103;
  status = UserStatus.active;
  created_at = 0;
  last_seen_at = none;
}

abbrev pub profile : Ident → Profile
profile i = record {
  user_id = i;
  nickname = 110 ∷ [];
  status_message = none;
  avatar_media_id = some 30;
  onboarded_at = some 5;
}

abbrev pub entry : Ident → Ident → WhitelistStatus → Whitelist
entry i k s = record {
  id = i;
  kakao_id = some k;
  identifier = none;
  status = s;
  invited_by = none;
  note = none;
  created_at = 0;
}

abbrev pub applicant : AccessRequest
applicant = record {
  id = 60;
  kakao_id = 109;
  nickname = none;
  profile_image_url = none;
  attempts = 1;
  created_at = 0;
}

abbrev pub group : Room
group = record {
  id = 10;
  kind = RoomType.group;
  name = none;
  avatar_media_id = none;
  created_by = 1;
  created_at = 0;
  last_message_at = none;
  direct_key = none;
}

abbrev pub row : Ident → MemberRole → Option ℕ → RoomMember
row u r left = record {
  room_id = 10;
  user_id = u;
  role = r;
  joined_at = u;
  last_read_seq = 0;
  muted_until = none;
  left_at = left;
}

abbrev pub text : Ident → Ident → ℕ → Ident → Message
text i sender n client = record {
  id = i;
  room_id = 10;
  sender_id = sender;
  seq = n;
  kind = MessageType.text;
  content = some (104 ∷ []);
  media_id = none;
  reply_to_id = none;
  client_message_id = some client;
  created_at = 900;
  edited_at = none;
  deleted_at = none;
}

abbrev pub picture : Media
picture = record {
  id = 30;
  uploader_id = 1;
  storage_key = 107 ∷ [];
  mime_type = 109 ∷ [];
  byte_size = 5;
  width = none;
  height = none;
  duration_ms = none;
  is_animated = false;
  thumbnail_key = none;
  status = MediaStatus.ready;
}

abbrev pub phone : PushToken
phone = record { id = 40; user_id = 1; device_id = none; fcm_token = 400; platform = 1 }

-- A group of Ann, its owner, Bob, and Cho, an admin; Ann and Bob have written a message each.
abbrev pub world : World
world = record {
  users = ann ∷ bob ∷ cho ∷ [];
  profiles = profile 1 ∷ [];
  whitelist = entry 51 101 WhitelistStatus.active ∷ entry 52 102 WhitelistStatus.blocked ∷ [];
  access_requests = applicant ∷ [];
  rooms = group ∷ [];
  members =
      row 1 MemberRole.owner none ∷ row 2 MemberRole.member none ∷ row 3 MemberRole.admin none ∷ [];
  messages = text 21 2 2 72 ∷ text 20 1 1 71 ∷ [];
  media = picture ∷ [];
  push_tokens = phone ∷ [];
  counter = λ r. none;
  refresh = λ u j. u == 1 && j == 5;
  sockets = λ u. [];
  events = [];
  now = 1000;
  issued = 900;
}

-- The state where the counter in Redis has fallen behind.
abbrev pub lagging : World
lagging = record world { messages = text 22 2 9 73 ∷ world.messages; counter = λ r. some 2 }

abbrev pub hello : Ident → Ident → CreateMessageParams
hello sender client = record {
  room_id = 10;
  sender_id = sender;
  kind = MessageType.text;
  content = some (104 ∷ []);
  media_id = none;
  reply_to_id = none;
  client_message_id = some client;
  is_system = false;
}
