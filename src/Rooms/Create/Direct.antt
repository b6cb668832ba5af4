-- ===== src/Rooms/Create/Direct.antt =====
-- On the direct rooms of `createDirect` (src/rooms/rooms.service.ts).
use intaektok_be.Prelude.{
  ℕ, ◌≡◌, refl, sym, ap, ◌∙◌, ◌⊎◌, inl, inr, Bool, true, ◌&&◌, ◌||◌, ◌==◌, if◌then◌else◌, Option,
  none, some, List, [], ◌∷◌, map, update_where, Ident, arith, Option-cases, subst,
}
use intaektok_be.Prisma.{Room, RoomMember}
use intaektok_be.Common.Views.{RoomView}
use intaektok_be.Common.Events.{room_created}
use intaektok_be.World.{World, Result, ok, err, pure, ◌>>◌}
use intaektok_be.World.Keeps.{bind_rule}
use intaektok_be.Env.{Env}
use intaektok_be.Rooms.View.{get_room_view, emit_lifecycle}
use intaektok_be.Rooms.View.Reads.{get_room_view_reads, get_room_view_id, emit_lifecycle-Keeps}
use intaektok_be.Rooms.Create.{
  left_side, rejoin, direct_key, find_direct, reactivate_direct, direct_room, add_direct,
  opened_direct, insert_direct, open_direct,
}

-- The order of strings is total and antisymmetric.
pub record IsOrder (le : Ident → Ident → Bool) : Type 0 where
  pub total : (a b : Ident) → (le a b ≡ true) ⊎ (le b a ≡ true)
  pub antisym : (a b : Ident) → le a b ≡ true → le b a ≡ true → a ≡ b

pub direct_key_comm :
    (env : Env) → IsOrder env.id_le → (a b : Ident) → direct_key env a b ≡ direct_key env b a
direct_key_comm env o a b = ground (arith, o.total a b, o.antisym a b)

module _ (env : Env) (key : Ident × Ident) where
  -- The view that was returned is of the room that the key finds.
  abbrev pub Opened : Result RoomView × World → Type 0
  Opened (ok v, w) = (r : Room) × (find_direct key w ≡ some r) × (v.id ≡ r.id)
  Opened (err _, w) = Unit {0}

  viewed :
      (r : Room) (user : Ident) (w : World)
      → find_direct key w ≡ some r
      → Opened (get_room_view env r.id user w)
  viewed r user w e = go (get_room_view env r.id user w) refl
    where
      go : (x : Result RoomView × World) → get_room_view env r.id user w ≡ x → Opened x
      go (err _, w') h = tt
      go (ok v, w') h = (
        r,
        subst (λ z. find_direct key z ≡ some r)
            (sym (get_room_view_reads env r.id user w) ∙ ap (λ y. y.1) h) e,
        get_room_view_id env r.id user w w' v h,
      )

  reactivate_direct-Opened :
      (r : Room) (a b : Ident) (w : World)
      → find_direct key w ≡ some r
      → Opened (reactivate_direct env r.id a b w)
  unfolding reactivate_direct
  reactivate_direct-Opened r a b w e = viewed r a _ e

  -- Nothing in the event changes the rooms.
  opened_direct-Opened :
      (r : Room) (a b : Ident) (w : World)
      → find_direct key w ≡ some r
      → Opened (opened_direct env a b r w)
  unfolding opened_direct
  opened_direct-Opened r a b w e =
      bind_rule Opened Opened (get_room_view env r.id a)
        (λ view. emit_lifecycle env room_created r.id (a ∷ b ∷ []) >> pure view) w (viewed r a w e)
        (λ view v (r', found, id).
          bind_rule (λ (_, z). find_direct key z ≡ some r') Opened
            (emit_lifecycle env room_created r.id (a ∷ b ∷ [])) (λ _. pure view) v
            (emit_lifecycle-Keeps env (λ z. find_direct key z ≡ some r') room_created r.id
              (a ∷ b ∷ []) (λ _ _ h. h) v found)
            (λ _ z found'. (r', found', id)) (λ _ _ _. tt))
        (λ _ _ _. tt)

-- The row of one of two users in a room, without the time at which the user left it.
abbrev pub back_in : Ident → Ident → Ident → RoomMember → RoomMember
back_in room a b m =
    if m.room_id == room && (m.user_id == a || m.user_id == b)
    then record m { left_at = none }
    else m

rejoined :
    (room a b : Ident) (ms : List RoomMember)
    → update_where (left_side room b a) rejoin ms ≡ map (back_in room a b) ms
rejoined room a b [] = refl
rejoined room a b (m ∷ ms) = ground (arith, rejoined room a b ms, one)
  where
    there : m.left_at ≡ none → m ≡ record m { left_at = none }
    there h = ap (λ (t : Option ℕ). record m { left_at = t }) h

    one : (if left_side room b a m then rejoin m else m) ≡ back_in room a b m
    one = elim (Option-cases m.left_at) [
      | inl e ↦ ground (arith, e, there e)
      | inr (t, e) ↦ ground (arith, e)
    ]

module _ (env : Env) (a b : Ident) where
  insert_direct-Opened : (w : World) → Opened env (direct_key env a b) (insert_direct env a b w)
  unfolding insert_direct
  insert_direct-Opened w =
      let key = direct_key env a b in
      let v = env.others 0 w in
      elim (Option-cases (find_direct key v)) [
        | inl e ↦
            let r = direct_room env a key v in
            rw (e, insert_direct)
              (opened_direct-Opened env key r a b (add_direct a b r v) (ground arith))
        | inr (r, e) ↦ rw (e, insert_direct) (reactivate_direct-Opened env key r a b v e)
      ]

  open_direct-Opened : (w : World) → Opened env (direct_key env a b) (open_direct env a b w)
  unfolding open_direct
  open_direct-Opened w = elim (Option-cases (find_direct (direct_key env a b) w)) [
    | inl e ↦ rw (e, open_direct) (insert_direct-Opened w)
    | inr (r, e) ↦ rw (e, open_direct) (reactivate_direct-Opened env (direct_key env a b) r a b w e)
  ]

  -- Where the order of ids is total and antisymmetric: once one of two users has opened their direct
  -- room, the other's request opens the same room. The rows of both in that room become active, no other
  -- row changes and no room is created; a view that is returned is of that room.
  pub open_direct_again :
      (w w' : World) (view : RoomView)
      → IsOrder env.id_le
      → open_direct env a b w ≡ (ok view, w')
      → ((open_direct env b a w').1 ≡ record w' { members = map (back_in view.id a b) w'.members })
        × ((v : RoomView) → (open_direct env b a w').0 ≡ ok v → v.id ≡ view.id)
  unfolding open_direct reactivate_direct
  open_direct_again w w' view o done =
      let (r, found, id) = subst (Opened env (direct_key env a b)) done (open_direct-Opened w) in
      let again : open_direct env b a w' ≡ reactivate_direct env view.id b a w' =
        ground (arith, direct_key_comm env o a b, found, id) in
      (
        ap (λ x. x.1) again
            ∙ get_room_view_reads env view.id b _
            ∙ ap (λ ms. record w' { members = ms }) (rejoined view.id a b w'.members),
        (λ v e. viewed_id v (sym (ap (λ x. x.0) again) ∙ e)),
      )
    where
      viewed_id : (v : RoomView) → (reactivate_direct env view.id b a w').0 ≡ ok v → v.id ≡ view.id
      viewed_id v e =
          get_room_view_id env view.id b _ _ v
            (ap (λ x. (x, (reactivate_direct env view.id b a w').1)) e)
