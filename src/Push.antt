-- ===== src/Push.antt =====
-- src/push/push.service.ts: the tokens of devices, and who is notified of a new message.
pub mod Targets
pub mod Tokens
pub mod Fcm
use intaektok_be.Prelude.{
  ℕ, suc, Bool, true, false, not, ◌&&◌, Option, none, some, List, [], ◌∷◌, map, Ident, Text, ◌==◌,
  ltb, if◌then◌else◌, find, select, update_where, delete_where, count, contains,
}
use intaektok_be.Prisma.{PushToken, RoomMember, is_system}
use intaektok_be.Common.Errors.{not_found}
use intaektok_be.Common.Events.{MessageCreatedEvent}
use intaektok_be.World.{World, Call, pure, gets, modify, ◌>>=◌, ◌>>◌, throw_if}
use intaektok_be.Env.{Env}
use intaektok_be.Presence.{is_online}

pub record RegisterTokenDto : Type 0 where
  pub fcm_token : Ident
  pub platform : Ident
  pub device_id : Option Ident

abbrev pub has_token : Ident → PushToken → Bool
has_token fcm t = t.fcm_token == fcm

abbrev pub reassigned : Ident → RegisterTokenDto → PushToken → PushToken
reassigned user dto t = record t {
  user_id = user;
  platform = dto.platform;
  device_id = dto.device_id;
}

abbrev pub new_token : Env → Ident → RegisterTokenDto → World → PushToken
new_token env user dto w = record {
  id = env.cuid w.issued;
  user_id = user;
  device_id = dto.device_id;
  fcm_token = dto.fcm_token;
  platform = dto.platform;
}

-- `pushToken.upsert`
abbrev upsert_token : Env → Ident → RegisterTokenDto → Option PushToken → Call PushToken
upsert_token env user dto none = do
  t ← gets (new_token env user dto)
  modify λ w. record w { push_tokens = t ∷ w.push_tokens; issued = suc w.issued }
  pure t
upsert_token env user dto (some t) = do
  modify λ w. record w {
    push_tokens = update_where (has_token dto.fcm_token) (reassigned user dto) w.push_tokens;
  }
  pure (reassigned user dto t)

-- The result is the row, of which the caller gets the id and the platform.
unfoldable pub register_token : Env → Ident → RegisterTokenDto → Call PushToken
register_token env user dto = do
  found ← gets (λ w. find (has_token dto.fcm_token) w.push_tokens)
  upsert_token env user dto found

abbrev is_own : Ident → Ident → PushToken → Bool
is_own user id t = t.id == id && t.user_id == user

unfoldable pub remove_token : Ident → Ident → Call (Unit {0})
remove_token user id = do
  n ← gets (λ w. count (is_own user id) w.push_tokens)
  modify λ w. record w { push_tokens = delete_where (is_own user id) w.push_tokens }
  throw_if (n == 0) (not_found "푸시 토큰을 찾을 수 없습니다.")

-- `mutedUntil: { gt: now }`
abbrev mutes : Option ℕ → ℕ → Bool
mutes none now = false
mutes (some t) now = ltb now t

abbrev pub is_muting : Ident → ℕ → RoomMember → Bool
is_muting room now m = m.room_id == room && mutes m.muted_until now

-- The user ids of a list but those that a test picks, as `filter` leaves them.
abbrev pub ids_of : List RoomMember → List Ident
ids_of ms = map (λ (m : RoomMember). m.user_id) ms

-- The recipients of a message that are offline and have not muted its room; `sent_to` has the early return
-- for SYSTEM messages.
unfoldable pub targets_of : MessageCreatedEvent → World → List Ident
targets_of event w =
    let recipients = select (λ i. not (i == event.message.sender_id)) event.member_user_ids in
    let away = select (λ i. not (is_online i w)) recipients in
    let muting =
      select
        (λ (m : RoomMember). is_muting event.message.room_id w.now m && contains away m.user_id)
        w.members in
    select (λ i. not (contains (ids_of muting) i)) away

abbrev tokens_of : List Ident → World → List PushToken
tokens_of targets w = select (λ (t : PushToken). contains targets t.user_id) w.push_tokens

abbrev pub fcm_tokens : List PushToken → List Ident
fcm_tokens ts = map (λ (t : PushToken). t.fcm_token) ts

-- The tokens that a message is sent to; the early returns of the handler are those of no token.
unfoldable pub sent_to : MessageCreatedEvent → World → List Ident
sent_to event w =
    if is_system event.message.kind then [] else fcm_tokens (tokens_of (targets_of event w) w)

-- `pushToken.deleteMany` of the tokens that FCM found invalid.
abbrev drop_tokens : List Ident → World → World
drop_tokens bad w = record w {
  push_tokens = delete_where (λ (t : PushToken). contains bad t.fcm_token) w.push_tokens;
}

-- Without tokens nothing is sent.
abbrev deliver : (List Ident → List Ident) → List Ident → World → World
deliver invalid [] w = w
deliver invalid (t ∷ ts) w = drop_tokens (invalid (t ∷ ts)) w

-- `onMessageCreated`, where `sendToTokens` finds the given ones of its tokens invalid.
unfoldable pub on_message_created : (List Ident → List Ident) → MessageCreatedEvent → World → World
on_message_created invalid event w = deliver invalid (sent_to event w) w
