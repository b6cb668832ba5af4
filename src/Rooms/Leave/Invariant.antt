-- ===== src/Rooms/Leave/Invariant.antt =====
-- On `removeMember` (src/rooms/rooms.service.ts) as a whole.
use intaektok_be.Prelude.{
  ◌≡◌, refl, sym, subst, ap, ◌∙◌, true, Option, none, some, Ident, ◌==◌, ◌&&◌, update_where,
}
use intaektok_be.Prisma.{Room, RoomMember, MemberRole, owner, is_group, is_owner}
use intaektok_be.Common.Events.{room_updated}
use intaektok_be.World.{World, Result, ok, err, pure, modify, when}
use intaektok_be.World.Keeps.{Keeps, bind-Keeps, when-Keeps, bind_rule}
use intaektok_be.Env.{Env}
use intaektok_be.Messages.Checks.{is_member_row}
use intaektok_be.Messages.Create.{create_system_message}
use intaektok_be.Messages.Create.Frame.{Frame, create_system_message-Keeps}
use intaektok_be.Rooms.View.{find_room}
use intaektok_be.Rooms.View.Reads.{emit_lifecycle-Keeps}
use intaektok_be.Rooms.Manage.{with_role}
use intaektok_be.Rooms.Members.{
  IsOwned, IsOwned-Frame, OthersKeepOwned, UniqueMembers, update-UniqueMembers, one_owner,
}
use intaektok_be.Rooms.Leave.{
  next_owner, transfer_ownership, gone, set_left, leave, leave_payload, assert_may_remove,
  tell_left, announce_left, tell_removed, remove_found, remove_member,
}
use intaektok_be.Rooms.Leave.Ownership.{leave-HasOwner}
use intaektok_be.Rooms.Leave.Authority.{Removable, assert_may_remove_iff, assert_may_remove_reads}

transfer_ownership-UniqueMembers :
    (room : Ident) (w : World)
    → UniqueMembers w.members
    → UniqueMembers (transfer_ownership room w).members
unfolding transfer_ownership
transfer_ownership-UniqueMembers room w u = go (next_owner room w)
  where
    go :
        (o : Option RoomMember)
        → UniqueMembers (
            (elim o as (λ _. World) [
              | none ↦ w
              | some m ↦ record w {
                members = update_where (is_member_row room m.user_id) (with_role owner) w.members;
              }
            ]).members)
    go none = u
    go (some m) =
        update-UniqueMembers (is_member_row room m.user_id) (with_role owner) (λ x. (refl, refl))
          w.members u

leave-UniqueMembers :
    (room target : Ident) (r : Room) (t : RoomMember)
    → Keeps (λ w. UniqueMembers w.members) (leave room target r t)
unfolding leave
leave-UniqueMembers room target r t w u =
    when-Keeps (λ v. UniqueMembers v.members) (is_owner t.role && is_group r.kind)
      (modify (transfer_ownership room)) (λ v. transfer_ownership-UniqueMembers room v)
      (set_left room target w)
      (update-UniqueMembers (is_member_row room target) (gone w.now) (λ m. (refl, refl)) w.members
        u)

module _ (env : Env) (room : Ident) (P : World → Type 0) (F : Frame env P) where
  tell_left-Keeps : (actor target : Ident) → Keeps P (tell_left env room actor target)
  unfolding tell_left
  tell_left-Keeps actor target =
      let payload = leave_payload (target == actor) actor target in
      bind-Keeps P (create_system_message env room actor payload) (λ _. pure tt)
        (create_system_message-Keeps env P F room actor payload) (λ _ w h. h)

  announce_left-Keeps : (target : Ident) → Keeps P (announce_left env room target)
  unfolding announce_left
  announce_left-Keeps target w h = emit_lifecycle-Keeps env P room_updated room _ F.event w h

  pub tell_removed-Keeps :
      (actor target : Ident) (r : Room) → Keeps P (tell_removed env room actor target r)
  unfolding tell_removed
  tell_removed-Keeps actor target r =
      bind-Keeps P (when (is_group r.kind) (tell_left env room actor target))
        (λ _. announce_left env room target)
        (when-Keeps P (is_group r.kind) (tell_left env room actor target)
          (tell_left-Keeps actor target))
        (λ _. announce_left-Keeps target)

module _ (env : Env) (room : Ident) (k : OthersKeepOwned env room) where
  abbrev Owned : {A : Type 0} → Result A × World → Type 0
  Owned (_, w) = IsOwned room w

  remove_found-IsOwned :
      (actor target : Ident) (a : MemberRole) (r : Room) (t : RoomMember) (w : World)
      → Removable room actor a target r t w
      → is_group r.kind ≡ true
      → IsOwned room w
      → IsOwned room (remove_found env room actor target (r, t) w).1
  unfolding remove_found
  remove_found-IsOwned actor target a r t w u g h =
      let one = one_owner room target w t h u.row_found u.active in
      bind_rule Owned Owned (leave room target r t) (λ _. tell_removed env room actor target r) w
        (
          leave-UniqueMembers room target r t w h.0,
          leave-HasOwner room target r t w h.0 g u.row_found u.active one,
        )
        (λ _ v.
          tell_removed-Keeps env room (IsOwned room) (IsOwned-Frame env room k) actor target r v)
        (λ _ _ o. o)

  -- A group has keyed rows and exactly one active owner, or no active member, after any call of
  -- `removeMember`, whoever makes it and however it ends, if it had before and other requests keep that.
  pub remove_member-IsOwned :
      (actor target : Ident) (a : MemberRole) (r : Room) (w : World)
      → find_room room w ≡ some r
      → is_group r.kind ≡ true
      → IsOwned room w
      → IsOwned room (remove_member env room actor a target w).1
  unfolding remove_member
  remove_member-IsOwned actor target a r w found g h =
      bind_rule Checked Owned (assert_may_remove room actor a target)
        (remove_found env room actor target) w
        (checked (assert_may_remove room actor a target w) refl)
        (λ (r', t) v (u, same, h'). remove_found-IsOwned actor target a r' t v u (rw same g) h')
        (λ _ v h'. h')
    where
      Checked : Result (Room × RoomMember) × World → Type 0
      Checked (ok (r', t), v) = Removable room actor a target r' t v × (r' ≡ r) × IsOwned room v
      Checked (err _, v) = IsOwned room v

      checked :
          (x : Result (Room × RoomMember) × World)
          → assert_may_remove room actor a target w ≡ x
          → Checked x
      checked (ok (r', t), v) e =
          let same : v ≡ w =
            sym (ap (λ y. y.1) e) ∙ assert_may_remove_reads room actor a target w in
          let u =
            (assert_may_remove_iff room actor a target r' t w).0
              (subst (λ z. assert_may_remove room actor a target w ≡ (ok (r', t), z)) same e) in
          (
            subst (Removable room actor a target r' t) (sym same) u,
            cc (u.room_found),
            subst (IsOwned room) (sym same) h,
          )
      checked (err _, v) e =
          subst (IsOwned room)
            (sym (assert_may_remove_reads room actor a target w) ∙ ap (λ y. y.1) e) h
