-- ===== src/System/Preserves.antt =====
-- Invariants of the state: a rule for each way to build a call, and what the calls that write messages,
-- users or the whitelist must keep.
pub mod Rooms
pub mod Create
pub mod Unsend
pub mod Listing
use intaektok_be.Prelude.{
  ◌==◌, update_where, ℕ, Bool, true, false, not, Option, none, some, List, [], ◌∷◌, Ident, Text,
  if◌then◌else◌, ◌≡◌, refl, sym, subst, arith,
}
use intaektok_be.Prisma.{MemberRole, Room, RoomMember, Message}
use intaektok_be.Common.Errors.{Error}
use intaektok_be.Common.Events.{Event, RoomLifecycleEvent}
use intaektok_be.World.{
  World, Result, Call, pure, throw, gets, modify, emit, throw_if, or_throw, when, ◌>>=◌, ◌>>◌,
}
use intaektok_be.World.Keeps.{Keeps, bind-Keeps, when-Keeps, throw_if-Keeps, or_throw-Keeps}
use intaektok_be.Env.{Env}
use intaektok_be.Messages.SystemMessage.{SystemMessagePayload}
use intaektok_be.Messages.Persist.Unique.{UniqueKeys, OthersKeep}
use intaektok_be.Messages.Checks.{CreateMessageParams}
use intaektok_be.Messages.Create.{create_message, create_system_message, system_params}
use intaektok_be.Messages.Create.Unique.{create_message-UniqueKeys}
use intaektok_be.Rooms.View.{get_room_view, emit_lifecycle}
use intaektok_be.Rooms.View.Reads.{get_room_view_reads, emit_lifecycle-Keeps}
use intaektok_be.Rooms.Checks.{assert_active_users, require_group, require_role}
use intaektok_be.Rooms.Manage.{
  UpdateRoomDto, announce, admit_call, add_members, update_room, update_member_role,
}
use intaektok_be.Media.{assert_owned_media_or_null}
use intaektok_be.System.Quiet.{
  Calm, Quiet, require_group-Quiet, assert_active_users-Quiet, assert_owned-Quiet,
  assert_may_remove-Quiet, leave-Quiet, admit_call-Quiet,
}
use intaektok_be.Rooms.Leave.{
  leave, assert_may_remove, tell_left, announce_left, tell_removed, remove_found, remove_member,
}
use intaektok_be.Messages.Unsend.{unsend}
use intaektok_be.Auth.Jwt.{Jwt}
use intaektok_be.Auth.Kakao.{KakaoApi}
use intaektok_be.Auth.Login.{kakao_login, bootstrap_one}
use intaektok_be.Admin.{CreateWhitelistDto, UpdateWhitelistDto, update, approve_access_request}
use intaektok_be.Realtime.Socket.{Client}
use intaektok_be.Realtime.Connection.{handle_disconnect}

-- The call keeps what is said of the state.
pub record Preserves (Q : World → Type 0) {A : Type 0} (m : Call A) : Type 0 where
  pub at : Keeps Q m

-- What is kept by whatever leaves the messages, the users and the whitelist alone, by each operation
-- that does not, and by other requests.
pub record Law (env : Env) (Q : World → Type 0) : Type 0 where
  pub calm : (w v : World) → Calm w v → Q w → Q v
  pub create : (p : CreateMessageParams) → Preserves Q (create_message env p)
  pub unsend : (room id : Ident) → Preserves Q (unsend room id)
  pub login :
      (jwt : Jwt) (api : KakaoApi) (code redirect_uri : Text)
      → Preserves Q (kakao_login env jwt api code redirect_uri)
  pub create_entry :
      (dto : CreateWhitelistDto) (by : Ident) → Preserves Q (intaektok_be.Admin.create env dto by)
  pub update_entry : (id : Ident) (dto : UpdateWhitelistDto) → Preserves Q (update id dto)
  pub remove_entry : (id : Ident) → Preserves Q (intaektok_be.Admin.remove id)
  pub approve : (id by : Ident) → Preserves Q (approve_access_request env id by)
  pub boot : (id : Ident) (w : World) → Q w → Q (bootstrap_one env id w)
  pub disconnect : (client : Client) (w : World) → Q w → Q (handle_disconnect client w).1
  pub others : (left : ℕ) (w : World) → Q w → Q (env.others left w)

module _ {Q : World → Type 0} where
  module _ {A : Type 0} where
    pub pure-Preserves : (a : A) → Preserves Q (pure a)
    pure-Preserves a = record { at = λ w h. h }

    pub throw-Preserves : (e : Error) → Preserves Q (throw {A = A} e)
    throw-Preserves e = record { at = λ w h. h }

    pub gets-Preserves : (f : World → A) → Preserves Q (gets f)
    gets-Preserves f = record { at = λ w h. h }

    pub or_throw-Preserves : (o : Option A) (e : Error) → Preserves Q (or_throw o e)
    or_throw-Preserves o e = record { at = or_throw-Keeps Q o e }

  pub if-Preserves :
      {A : Type 0} (b : Bool) (m n : Call A)
      → Preserves Q m
      → Preserves Q n
      → Preserves Q (if b then m else n)
  if-Preserves true m n k l = k
  if-Preserves false m n k l = l

  pub throw_if-Preserves : (b : Bool) (e : Error) → Preserves Q (throw_if b e)
  throw_if-Preserves b e = record { at = throw_if-Keeps Q b e }

  pub when-Preserves : (b : Bool) (m : Call (Unit {0})) → Preserves Q m → Preserves Q (when b m)
  when-Preserves b m k = record { at = when-Keeps Q b m k.at }

  pub bind-Preserves :
      {A B : Type 0} (m : Call A) (f : A → Call B)
      → Preserves Q m
      → ((a : A) → Preserves Q (f a))
      → Preserves Q (m >>= f)
  bind-Preserves m f k l = record { at = bind-Keeps Q m f k.at (λ a. (l a).at) }

  pub then-Preserves :
      {A B : Type 0} (m : Call A) (n : Call B)
      → Preserves Q m
      → Preserves Q n
      → Preserves Q (m >> n)
  then-Preserves m n k l = record { at = bind-Keeps Q m (λ _. n) k.at (λ _. l.at) }

  pub ruleset preserve_rules = (
    if-Preserves, pure-Preserves, throw-Preserves, gets-Preserves, or_throw-Preserves,
    throw_if-Preserves, when-Preserves, bind-Preserves, then-Preserves,
  )

  module _ (env : Env) (law : Law env Q) where
    pub of_Quiet : {A : Type 0} (m : Call A) → Quiet m → Preserves Q m
    of_Quiet m q = record { at = λ w h. law.calm w (m w).1 (q.at w) h }

    pub members-Preserves :
        (f : World → List RoomMember) → Preserves Q (modify (λ w. record w { members = f w }))
    members-Preserves f = record { at = λ w h. law.calm w _ (refl, refl, refl, omega arith) h }

    pub rooms-Preserves :
        (f : World → List Room) → Preserves Q (modify (λ w. record w { rooms = f w }))
    rooms-Preserves f = record { at = λ w h. law.calm w _ (refl, refl, refl, omega arith) h }
