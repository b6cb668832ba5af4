-- ===== src/Rooms/Checks.antt =====
-- src/rooms/rooms.service.ts: the checks that the operations share.
use intaektok_be.Prelude.{
  Bool, true, false, not, ◌&&◌, List, [], ◌∷◌, Ident, ◌==◌, if◌then◌else◌, select, contains, dedup,
  length,
}
use intaektok_be.Prisma.{User, Room, MemberRole, owner, admin, member, is_active, is_group}
use intaektok_be.Common.Errors.{forbidden, not_found}
use intaektok_be.World.{World, Call, pure, gets, or_throw, ◌>>=◌, ◌>>◌, throw_if}
use intaektok_be.Rooms.View.{find_room}

-- The users that `findMany` returns: those of the ids that are active.
abbrev pub active_users : List Ident → World → List User
active_users ids w = select (λ (u : User). contains ids u.id && is_active u.status) w.users

unfoldable pub assert_active_users : List Ident → Call (Unit {0})
unfolding dedup
assert_active_users user_ids = do
  users ← gets (active_users (dedup user_ids))
  throw_if (not (length users == length (dedup user_ids)))
      (forbidden "등록되지 않았거나 비활성화된 사용자가 포함되어 있습니다.")

unfoldable pub require_group : Ident → Call Room
require_group room = do
  found ← gets (find_room room)
  r ← or_throw found (not_found "채팅방을 찾을 수 없습니다.")
  throw_if (not (is_group r.kind)) (forbidden "그룹 채팅에서만 가능합니다.")
  pure r

-- `===` on roles
abbrev pub role_eq : MemberRole → MemberRole → Bool
role_eq owner owner = true
role_eq admin admin = true
role_eq member member = true
role_eq _ _ = false

abbrev pub allows : List MemberRole → MemberRole → Bool
allows [] role = false
allows (r ∷ rs) role = if role_eq r role then true else allows rs role

unfoldable pub require_role : MemberRole → List MemberRole → Call (Unit {0})
require_role role allowed = throw_if (not (allows allowed role)) (forbidden "해당 작업을 수행할 권한이 없습니다.")
