-- ===== src/Messages/SystemMessage.antt =====
-- src/messages/system-message.ts: the payloads of SYSTEM messages and their previews.
use intaektok_be.Prelude.{List, Option, none, some, ◌++◌, Ident, Text, codes}
use intaektok_be.Prisma.{MemberRole}

pub data SystemMessagePayload : Type 0 where
  room_created : Ident → SystemMessagePayload
  member_joined : Ident → List Ident → SystemMessagePayload
  member_left : Ident → SystemMessagePayload
  member_kicked : Ident → Ident → SystemMessagePayload
  room_renamed : Ident → Option Text → SystemMessagePayload
  room_avatar_changed : Ident → SystemMessagePayload
  role_changed : Ident → Ident → MemberRole → SystemMessagePayload

-- A template prints null as its name.
abbrev printed : Option Text → Text
printed none = codes "null"
printed (some t) = t

pub system_preview : SystemMessagePayload → Text
system_preview (room_created _) = codes "채팅방이 생성되었습니다."
system_preview (member_joined _ _) = codes "새로운 멤버가 입장했습니다."
system_preview (member_left _) = codes "멤버가 퇴장했습니다."
system_preview (member_kicked _ _) = codes "멤버가 내보내졌습니다."
system_preview (room_renamed _ name) = codes "방 이름이 '" ++ (printed name ++ codes "'(으)로 변경되었습니다.")
system_preview (room_avatar_changed _) = codes "방 사진이 변경되었습니다."
system_preview (role_changed _ _ _) = codes "멤버 권한이 변경되었습니다."
