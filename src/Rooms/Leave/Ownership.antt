-- ===== src/Rooms/Leave/Ownership.antt =====
-- On `transferOwnership` (src/rooms/rooms.service.ts) and the owner of a group.
use intaektok_be.Prelude.{
  ◌≡◌, inl, inr, refl, Bool, true, none, some, List, [], ◌∷◌, Ident, find, select, count, arith,
  Bool-cases, Option-cases, In, find-In, select-In, select_empty, count-update_where, count-pos,
  find-holds,
}
use intaektok_be.Prisma.{Room, RoomMember, owner, is_owner, is_group}
use intaektok_be.World.{World}
use intaektok_be.Messages.Checks.{is_member_row, find_member, in_room}
use intaektok_be.Rooms.View.{active_members, first}
use intaektok_be.Rooms.Manage.{with_role}
use intaektok_be.Rooms.Members.{
  UniqueMembers, AtMostOne-member, owns, HasOwner, find-member-In, update-UniqueMembers,
}
use intaektok_be.Rooms.Leave.{
  comes_first, insert_senior, order_senior, or_first, next_owner, transfer_ownership, gone,
  set_left, leave,
}

-- Ordering the candidates keeps who is there.
In-insert_senior :
    (m x : RoomMember) (ms : List RoomMember) → In x (insert_senior m ms) → In x (m ∷ ms)
In-insert_senior m x [] h = h
In-insert_senior m x (y ∷ ys) h = elim (Bool-cases (comes_first m y)) [
  | inl e ↦ rw e at h
  | inr e ↦ elim (rw e at h) [
    | inl same ↦ inr (inl same)
    | inr later ↦ elim (In-insert_senior m x ys later) [ inl q ↦ inl q | inr q ↦ inr (inr q) ]
  ]
]

In-order_senior : (x : RoomMember) (ms : List RoomMember) → In x (order_senior ms) → In x ms
In-order_senior x [] h = h
In-order_senior x (m ∷ ms) h = elim (In-insert_senior m x (order_senior ms) h) [
  | inl q ↦ inl q
  | inr q ↦ inr (In-order_senior x ms q)
]

first-In : (x : RoomMember) (ms : List RoomMember) → first ms ≡ some x → In x ms
first-In x [] h = cc
first-In x (m ∷ ms) h = inl (ground arith)

or_first-In :
    (p : RoomMember → Bool) (x : RoomMember) (ms : List RoomMember)
    → or_first (find p ms) ms ≡ some x
    → In x ms
or_first-In p x ms h = elim (Option-cases (find p ms)) [
  | inl e ↦ first-In x ms (rw (e, or_first) at h)
  | inr (y, e) ↦ find-In p ms x (ground (arith, e))
]

-- Whoever is to own the room is one of its active members.
pub next_owner-active :
    (room : Ident) (w : World) (m : RoomMember)
    → next_owner room w ≡ some m
    → In m w.members × (in_room room m ≡ true)
unfolding next_owner active_members
next_owner-active room w m h =
    select-In (in_room room) w.members m (In-order_senior m _ (or_first-In _ m _ h))

insert_senior-not_empty : (m : RoomMember) (ms : List RoomMember) → insert_senior m ms ≡ [] → ⊥
insert_senior-not_empty m [] h = cc
insert_senior-not_empty m (x ∷ xs) h = ground arith

order_senior_empty : (ms : List RoomMember) → first (order_senior ms) ≡ none → ms ≡ []
order_senior_empty [] h = refl
order_senior_empty (m ∷ ms) h =
    absurd
      (insert_senior-not_empty m (order_senior ms) (no_first (insert_senior m (order_senior ms)) h))
  where
    no_first : (xs : List RoomMember) → first xs ≡ none → xs ≡ []
    no_first [] e = refl
    no_first (x ∷ xs) e = cc

-- There is none only where the room has no active member.
pub next_owner-none :
    (room : Ident) (w : World) → next_owner room w ≡ none → count (in_room room) w.members ≡ 0
unfolding next_owner active_members
next_owner-none room w h =
    select_empty (in_room room) w.members
      (order_senior_empty (select (in_room room) w.members) (ground arith))

-- Handing a room without an owner over gives it one, unless it has no active member.
pub transfer_ownership-HasOwner :
    (room : Ident) (w : World)
    → UniqueMembers w.members
    → count (owns room) w.members ≡ 0
    → HasOwner room (transfer_ownership room w).members
unfolding transfer_ownership
transfer_ownership-HasOwner room w u h = elim (Option-cases (next_owner room w)) [
  | inl e ↦ rw (e, transfer_ownership) (inr (next_owner-none room w e))
  | inr (m, e) ↦
      let (i, here) = next_owner-active room w m e in
      let found = find-member-In m w.members u i in
      let key = is_member_row m.room_id m.user_id in
      let moved =
        count-update_where key (owns room) (with_role owner) w.members m
          (AtMostOne-member m.room_id m.user_id w.members u) found in
      let some_owner = count-pos key (owns room) w.members m found in
      rw (e, transfer_ownership) (inl (ground (arith, here, moved, some_owner)))
]

-- Where the rows are keyed by room and user and a group has one active owner: when an active member
-- leaves or is removed, the room has one active owner again, or no active member is left.
pub leave-HasOwner :
    (room target : Ident) (r : Room) (t : RoomMember) (w : World)
    → UniqueMembers w.members
    → is_group r.kind ≡ true
    → find_member room target w ≡ some t
    → t.left_at ≡ none
    → count (owns room) w.members ≡ 1
    → HasOwner room (leave room target r t w).1.members
unfolding leave
leave-HasOwner room target r t w u g found active one =
    let key = is_member_row room target in
    let moved =
      count-update_where key (owns room) (gone w.now) w.members t
        (AtMostOne-member room target w.members u) found in
    let held = find-holds key w.members t found in
    let u' = update-UniqueMembers key (gone w.now) (λ m. (refl, refl)) w.members u in
    elim (Bool-cases (is_owner t.role)) [
      | inl e ↦
          rw (e, g)
            (transfer_ownership-HasOwner room (set_left room target w) u'
              (ground (arith, moved, held)))
      | inr e ↦ rw e (inl (ground (arith, moved, held)))
    ]
