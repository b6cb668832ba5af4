-- ===== src/Rooms/Leave/Authority.antt =====
-- On the checks of `removeMember` (src/rooms/rooms.service.ts).
use intaektok_be.Prelude.{
  ◌≡◌, ◌↔◌, ◌⊎◌, inl, inr, refl, false, none, some, Ident, ◌==◌, arith, Bool-cases, Option-cases,
}
use intaektok_be.Prisma.{Room, RoomMember, MemberRole, owner, admin, member}
use intaektok_be.World.{World, ok}
use intaektok_be.Messages.Checks.{find_member}
use intaektok_be.Rooms.View.{find_room}
use intaektok_be.Rooms.Leave.{assert_may_kick, assert_may_remove}

-- An owner removes admins and plain members, an admin removes plain members.
abbrev pub MayKick : MemberRole → MemberRole → Type 0
MayKick owner admin = Unit {0}
MayKick owner member = Unit {0}
MayKick admin member = Unit {0}
MayKick _ _ = ⊥

assert_may_kick_iff :
    (a t : MemberRole) (w : World) → (assert_may_kick a t w ≡ (ok tt, w)) ↔ MayKick a t
unfolding assert_may_kick
assert_may_kick_iff owner owner w = (λ h. ground arith, λ h. absurd h)
assert_may_kick_iff owner admin w = (λ h. tt, λ h. refl)
assert_may_kick_iff owner member w = (λ h. tt, λ h. refl)
assert_may_kick_iff admin owner w = (λ h. ground arith, λ h. absurd h)
assert_may_kick_iff admin admin w = (λ h. ground arith, λ h. absurd h)
assert_may_kick_iff admin member w = (λ h. tt, λ h. refl)
assert_may_kick_iff member t w = (λ h. ground arith, λ h. absurd (no_member t h))
  where
    no_member : (r : MemberRole) → MayKick member r → ⊥
    no_member owner k = k
    no_member admin k = k
    no_member member k = k

assert_may_kick_reads : (a t : MemberRole) (w : World) → (assert_may_kick a t w).1 ≡ w
unfolding assert_may_kick
assert_may_kick_reads a t w = ground arith

pub assert_may_remove_reads :
    (room actor : Ident) (a : MemberRole) (target : Ident) (w : World)
    → (assert_may_remove room actor a target w).1 ≡ w
unfolding assert_may_remove
assert_may_remove_reads room actor a target w = elim (Option-cases (find_member room target w)) [
  | inl e ↦ ground (arith, e)
  | inr (t, e) ↦ ground (arith, e, assert_may_kick_reads a t.role w)
]

kicked :
    (room actor : Ident) (a : MemberRole) (target : Ident) (r : Room) (t : RoomMember) (w : World)
    → assert_may_remove room actor a target w ≡ (ok (r, t), w)
    → (target == actor) ≡ false
    → assert_may_kick a t.role w ≡ (ok tt, w)
unfolding assert_may_remove
kicked room actor a target r t w h other = ground (arith, assert_may_kick_reads a t.role w)

-- The room and the row of an active member are there, and the actor is that member or may remove it.
pub record Removable (room actor : Ident) (a : MemberRole) (target : Ident) (r : Room)
    (t : RoomMember) (w : World) : Type 0 where
  pub room_found : find_room room w ≡ some r
  pub row_found : find_member room target w ≡ some t
  pub active : t.left_at ≡ none
  pub allowed : (target ≡ actor) ⊎ MayKick a t.role

-- `removeMember` passes its checks exactly for an active member of an existing room who is the actor,
-- or whom the actor outranks: an owner everyone but an owner, an admin plain members only.
pub assert_may_remove_iff :
    (room actor : Ident) (a : MemberRole) (target : Ident) (r : Room) (t : RoomMember) (w : World)
    → (assert_may_remove room actor a target w ≡ (ok (r, t), w))
      ↔ Removable room actor a target r t w
unfolding assert_may_remove
assert_may_remove_iff room actor a target r t w = (
  (λ h. record {
    room_found = ground arith;
    row_found = ground arith;
    active = ground arith;
    allowed = elim (Bool-cases (target == actor)) [
      | inl same ↦ inl (ground arith)
      | inr other ↦
          inr ((assert_may_kick_iff a t.role w).0 (kicked room actor a target r t w h other))
    ];
  }),
  λ u. elim (u.allowed) [
    | inl same ↦ ground (arith, u.room_found, u.row_found, u.active)
    | inr outranked ↦
        ground
          (arith, u.room_found, u.row_found, u.active, (assert_may_kick_iff a t.role w).1 outranked)
  ],
)
