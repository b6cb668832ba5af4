-- ===== src/Prisma.antt =====
-- prisma/schema.prisma: the enumerations and the models, a record to a model. A nullable column is
-- an `Option`; a `DateTime` is a number of milliseconds; `Room.directKey` is the pair of ids that it
-- joins. Columns that nothing here reads (`updatedAt`, `lastAttemptAt`) are left out.
use intaektok_be.Prelude.{ℕ, Bool, true, false, Option, Ident, Text}

pub data UserStatus : Type 0 where
  active suspended deleted : UserStatus

pub data WhitelistStatus : Type 0 where
  invited active blocked : WhitelistStatus

pub data RoomType : Type 0 where
  direct group : RoomType

pub data MemberRole : Type 0 where
  owner admin member : MemberRole

pub data MessageType : Type 0 where
  text image gif video file system : MessageType

pub data MediaStatus : Type 0 where
  pending ready : MediaStatus

-- `===` on the enumerations.
abbrev pub is_active : UserStatus → Bool
is_active UserStatus.active = true
is_active _ = false

abbrev pub is_suspended : UserStatus → Bool
is_suspended UserStatus.suspended = true
is_suspended _ = false

abbrev pub is_invited : WhitelistStatus → Bool
is_invited WhitelistStatus.invited = true
is_invited _ = false

abbrev pub is_blocked : WhitelistStatus → Bool
is_blocked WhitelistStatus.blocked = true
is_blocked _ = false

abbrev pub is_group : RoomType → Bool
is_group RoomType.group = true
is_group _ = false

abbrev pub is_owner : MemberRole → Bool
is_owner MemberRole.owner = true
is_owner _ = false

abbrev pub is_admin : MemberRole → Bool
is_admin MemberRole.admin = true
is_admin _ = false

abbrev pub is_plain : MemberRole → Bool
is_plain MemberRole.member = true
is_plain _ = false

abbrev pub is_system : MessageType → Bool
is_system MessageType.system = true
is_system _ = false

pub record User : Type 0 where
  pub id : Ident
  pub kakao_id : Ident
  pub status : UserStatus
  pub created_at : ℕ
  pub last_seen_at : Option ℕ

pub record Profile : Type 0 where
  pub user_id : Ident
  pub nickname : Text
  pub status_message : Option Text
  pub avatar_media_id : Option Ident
  pub onboarded_at : Option ℕ

pub record Whitelist : Type 0 where
  pub id : Ident
  pub kakao_id : Option Ident
  pub identifier : Option Ident
  pub status : WhitelistStatus
  pub invited_by : Option Ident
  pub note : Option Text
  pub created_at : ℕ

pub record AccessRequest : Type 0 where
  pub id : Ident
  pub kakao_id : Ident
  pub nickname : Option Text
  pub profile_image_url : Option Text
  pub attempts : ℕ
  pub created_at : ℕ

pub record Room : Type 0 where
  pub id : Ident
  pub kind : RoomType
  pub name : Option Text
  pub avatar_media_id : Option Ident
  pub created_by : Ident
  pub created_at : ℕ
  pub last_message_at : Option ℕ
  pub direct_key : Option (Ident × Ident)

pub record RoomMember : Type 0 where
  pub room_id : Ident
  pub user_id : Ident
  pub role : MemberRole
  pub joined_at : ℕ
  pub last_read_seq : ℕ
  pub muted_until : Option ℕ
  pub left_at : Option ℕ

pub record Message : Type 0 where
  pub id : Ident
  pub room_id : Ident
  pub sender_id : Ident
  pub seq : ℕ
  pub kind : MessageType
  pub content : Option Text
  pub media_id : Option Ident
  pub reply_to_id : Option Ident
  pub client_message_id : Option Ident
  pub created_at : ℕ
  pub edited_at : Option ℕ
  pub deleted_at : Option ℕ

pub record Media : Type 0 where
  pub id : Ident
  pub uploader_id : Ident
  pub storage_key : Text
  pub mime_type : Text
  pub byte_size : ℕ
  pub width : Option ℕ
  pub height : Option ℕ
  pub duration_ms : Option ℕ
  pub is_animated : Bool
  pub thumbnail_key : Option Text
  pub status : MediaStatus

pub record PushToken : Type 0 where
  pub id : Ident
  pub user_id : Ident
  pub device_id : Option Ident
  pub fcm_token : Ident
  pub platform : Ident
