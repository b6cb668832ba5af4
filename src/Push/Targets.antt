-- ===== src/Push/Targets.antt =====
-- On the choice of recipients in `onMessageCreated` (src/push/push.service.ts).
use intaektok_be.Prelude.{
  Bool, true, not, Option, ◌&&◌, List, [], ◌∷◌, Ident, ◌==◌, find, select, contains, is_some, ◌≡◌,
  refl, ap, ◌∙◌, sym, arith, Bool-cases, inl, inr, contains-select, contains-map-select,
}
use intaektok_be.Prisma.{RoomMember, PushToken, is_system}
use intaektok_be.Common.Events.{MessageCreatedEvent}
use intaektok_be.World.{World}
use intaektok_be.Presence.{is_online}
use intaektok_be.Push.{is_muting, ids_of, targets_of, sent_to}

-- Among the rows of one user, a test on the user changes nothing where it holds.
find_and :
    (q : RoomMember → Bool) (c : Ident → Bool) (ms : List RoomMember) (u : Ident)
    → c u ≡ true
    → find (λ m. (q m && c m.user_id) && m.user_id == u) ms ≡ find (λ m. q m && m.user_id == u) ms
find_and q c [] u h = refl
find_and q c (m ∷ ms) u h = elim (Bool-cases (m.user_id == u)) [
  | inl e ↦ ground (arith, e, same e, find_and q c ms u h)
  | inr e ↦ ground (arith, e, find_and q c ms u h)
]
  where
    same : (m.user_id == u) ≡ true → c m.user_id ≡ true
    same e = ap c (ground arith) ∙ h

-- The user has muted the room, past the time that is given.
abbrev pub has_muted : Ident → Ident → World → Bool
has_muted room user w =
    is_some (find (λ (m : RoomMember). is_muting room w.now m && m.user_id == user) w.members)

targets_of_iff :
    (event : MessageCreatedEvent) (w : World) (u : Ident)
    → contains (targets_of event w) u ≡ (
        contains event.member_user_ids u
        && not (u == event.message.sender_id)
        && not (is_online u w)
        && not (has_muted event.message.room_id u w))
unfolding targets_of
targets_of_iff event w u = elim (Bool-cases (contains away u)) [
  | inl e ↦
      contains-select (λ i. not (contains (ids_of muting) i)) away u
      ∙ rw
          (
            e,
            contains-map-select (λ (m : RoomMember). m.user_id) picked w.members u,
            find_and (is_muting event.message.room_id w.now) (contains away) w.members u e,
          )
          (ground (arith, sym e ∙ split))
  | inr e ↦
      contains-select (λ i. not (contains (ids_of muting) i)) away u
      ∙ rw e (ground (arith, sym e ∙ split))
]
  where
    recipients : List Ident
    recipients = select (λ i. not (i == event.message.sender_id)) event.member_user_ids

    away : List Ident
    away = select (λ i. not (is_online i w)) recipients

    picked : RoomMember → Bool
    picked m = is_muting event.message.room_id w.now m && contains away m.user_id

    muting : List RoomMember
    muting = select picked w.members

    split : contains away u ≡ (
        (contains event.member_user_ids u && not (u == event.message.sender_id))
        && not (is_online u w))
    split =
        contains-select (λ i. not (is_online i w)) recipients u
        ∙ ap (λ b. b && not (is_online u w))
            (contains-select (λ i. not (i == event.message.sender_id)) event.member_user_ids u)

-- The event lists the user, who is not the sender, has no live socket, and has not muted the room past
-- the present time.
abbrev pub is_wanted : MessageCreatedEvent → World → Ident → Bool
is_wanted event w u =
    contains event.member_user_ids u
    && not (u == event.message.sender_id)
    && not (is_online u w)
    && not (has_muted event.message.room_id u w)

wanted_rows :
    (event : MessageCreatedEvent) (w : World) (f : Ident) (ts : List PushToken)
    → find (λ (t : PushToken). contains (targets_of event w) t.user_id && t.fcm_token == f) ts
      ≡ find (λ (t : PushToken). is_wanted event w t.user_id && t.fcm_token == f) ts
wanted_rows event w f [] = refl
wanted_rows event w f (t ∷ ts) =
    ground (arith, targets_of_iff event w t.user_id, wanted_rows event w f ts)

-- A new message is sent to a device's token exactly if it is no SYSTEM message and the token is registered
-- for a user whom the event lists, who is not the sender, has no live socket, and has not muted the room
-- past the present time.
pub sent_to_iff :
    (event : MessageCreatedEvent) (w : World) (f : Ident)
    → contains (sent_to event w) f ≡ (
        not (is_system event.message.kind)
        && is_some (
            find
              (λ (t : PushToken). is_wanted event w t.user_id && t.fcm_token == f)
              w.push_tokens))
unfolding sent_to
sent_to_iff event w f = elim (Bool-cases (is_system event.message.kind)) [
  | inl e ↦ rw e refl
  | inr e ↦ rw e (
      contains-map-select (λ (t : PushToken). t.fcm_token)
        (λ (t : PushToken). contains (targets_of event w) t.user_id) w.push_tokens f
      ∙ ap (λ (o : Option PushToken). is_some o) (wanted_rows event w f w.push_tokens))
]
