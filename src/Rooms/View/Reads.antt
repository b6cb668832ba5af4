-- ===== src/Rooms/View/Reads.antt =====
-- On what `getRoomView` and `emitLifecycle` (src/rooms/rooms.service.ts) write.
use intaektok_be.Prelude.{
  ◌≡◌, refl, ◌∷◌, List, Option, none, some, Ident, arith, ℕ, subst, sym, Option-cases, inl, inr,
  find-holds, ◌==◌,
}
use intaektok_be.Prisma.{Room, RoomMember, Message}
use intaektok_be.Common.Views.{RoomView}
use intaektok_be.Common.Events.{Event, RoomLifecycleEvent}
use intaektok_be.World.{World, ok, emit}
use intaektok_be.World.Keeps.{Keeps, bind-Keeps}
use intaektok_be.Env.{Env}
use intaektok_be.Media.{UrlMap}
use intaektok_be.Rooms.View.{
  last_message_of, build_view, view_of, get_room_view, emit_lifecycle, id_or, first, find_room,
}

last_message_of_reads :
    (env : Env) (m : Option Message) (w : World) → (last_message_of env m w).1 ≡ w
last_message_of_reads env none w = refl
last_message_of_reads env (some m) w = ground arith

pub build_view_reads :
    (env : Env) (r : Room) (ms : List RoomMember) (last : Option Message) (urls : UrlMap) (n : ℕ)
    (w : World)
    → (build_view env r ms last urls n w).1 ≡ w
unfolding build_view
build_view_reads env r ms last urls n w = ground (arith, last_message_of_reads env last w)

view_of_reads :
    (env : Env) (room user : Ident) (r : Room) (w : World) → (view_of env room user r w).1 ≡ w
unfolding view_of
view_of_reads env room user r w = build_view_reads env r _ _ _ _ w

pub get_room_view_reads :
    (env : Env) (room user : Ident) (w : World) → (get_room_view env room user w).1 ≡ w
unfolding get_room_view
get_room_view_reads env room user w = elim (Option-cases (find_room room w)) [
  | inl e ↦ rw e
  | inr (r, e) ↦ rw e (view_of_reads env room user r w)
]

module _ (env : Env) (P : World → Type 0) where
  pub get_room_view-Keeps : (room user : Ident) → Keeps P (get_room_view env room user)
  get_room_view-Keeps room user w h = subst P (sym (get_room_view_reads env room user w)) h

  -- `emitLifecycle` keeps what does not look at the events.
  pub emit_lifecycle-Keeps :
      (event : RoomLifecycleEvent → Event) (room : Ident) (ids : List Ident)
      → ((w : World) (e : Event) → P w → P (record w { events = e ∷ w.events }))
      → Keeps P (emit_lifecycle env event room ids)
  unfolding emit_lifecycle
  emit_lifecycle-Keeps event room ids k w h =
      bind-Keeps P (get_room_view env room (id_or (first ids) room))
        (λ view. emit (event (record { room = view; room_id = room; member_user_ids = ids })))
        (get_room_view-Keeps room (id_or (first ids) room)) (λ view v i. k v _ i) w h

build_view_id :
    (env : Env) (r : Room) (ms : List RoomMember) (last : Option Message) (urls : UrlMap) (n : ℕ)
    (w w' : World) (v : RoomView)
    → build_view env r ms last urls n w ≡ (ok v, w')
    → v.id ≡ r.id
unfolding build_view
build_view_id env r ms last urls n w w' v h = ground arith

-- A view carries the id that it was asked for.
pub get_room_view_id :
    (env : Env) (room user : Ident) (w w' : World) (v : RoomView)
    → get_room_view env room user w ≡ (ok v, w')
    → v.id ≡ room
unfolding get_room_view view_of
get_room_view_id env room user w w' v h = elim (Option-cases (find_room room w)) [
  | inl e ↦ ground (arith, e)
  | inr (r, e) ↦
      let id = find-holds (λ (x : Room). x.id == room) w.rooms r e in
      let built = build_view_id env r _ _ _ _ w w' v (rw e at h) in ground (arith, id, built)
]
