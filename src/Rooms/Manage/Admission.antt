-- ===== src/Rooms/Manage/Admission.antt =====
-- On the loop of `addMembers` (src/rooms/rooms.service.ts).
use intaektok_be.Prelude.{
  ℕ, ◌≡◌, refl, sym, ◌∙◌, false, Option, none, some, List, [], ◌∷◌, Ident, ◌==◌, if◌then◌else◌,
  find, contains, dedup, count, arith, All, Bool-cases, inl, inr, count-update_where, Distinct,
  dedup-Distinct, contains-dedup, find-select, All-contains, find-update_where,
  find-update_where_ne, is_some,
}
use intaektok_be.Prisma.{RoomMember, member}
use intaektok_be.World.{World}
use intaektok_be.Messages.Checks.{is_member_row, find_member}
use intaektok_be.Rooms.Manage.{readmitted, admit_one, admit_all, existing_rows}
use intaektok_be.Rooms.Members.{UniqueMembers, AtMostOne-member, owns, update-UniqueMembers}

-- The row of a user who is added: that of a plain member who joins now and has read up to the head, the
-- same with the old mute for a member who had left, or the row of an active member as it is.
abbrev pub admitted : Ident → Ident → ℕ → ℕ → Option RoomMember → RoomMember
admitted room user now head none = record {
  room_id = room;
  user_id = user;
  role = member;
  joined_at = now;
  last_read_seq = head;
  muted_until = none;
  left_at = none;
}
admitted room user now head (some m) =
    if is_some m.left_at
    then (record {
      room_id = m.room_id;
      user_id = m.user_id;
      role = member;
      joined_at = now;
      last_read_seq = head;
      muted_until = m.muted_until;
      left_at = none;
    })
    else m

module _ (room : Ident) (head : ℕ) where
  admit_one_self :
      (user : Ident) (w : World) (old : Option RoomMember)
      → find_member room user w ≡ old
      → find_member room user (admit_one room user head old w).0
        ≡ some (admitted room user w.now head old)
  admit_one_self user w none e = ground arith
  admit_one_self user w (some m) e =
      let moved =
        find-update_where (is_member_row room user) (readmitted w.now head) w.members m (λ x h. h)
          e in
      ground (arith, moved)

  admit_one_other :
      (user other : Ident) (w : World) (old : Option RoomMember)
      → (user == other) ≡ false
      → find_member room other (admit_one room user head old w).0 ≡ find_member room other w
  admit_one_other user other w none e = ground arith
  admit_one_other user other w (some m) e =
      let kept =
        find-update_where_ne (is_member_row room user) (is_member_row room other)
          (readmitted w.now head) w.members (λ x h. ground arith) (λ x h. ground arith) in
      ground (arith, kept)

  admit_one_now :
      (user : Ident) (w : World) (old : Option RoomMember)
      → (admit_one room user head old w).0.now ≡ w.now
  admit_one_now user w none = refl
  admit_one_now user w (some m) = ground arith

  -- The rows that were read before the loop are those of the state.
  abbrev Current : List RoomMember → World → List Ident → Type 0
  Current existing w = All (λ u. find (is_member_row room u) existing ≡ find_member room u w)

  keeps_Current :
      (existing : List RoomMember) (user : Ident) (w : World) (old : Option RoomMember)
      (us : List Ident)
      → contains us user ≡ false
      → Current existing w us
      → Current existing (admit_one room user head old w).0 us
  keeps_Current existing user w old [] d h = tt
  keeps_Current existing user w old (u ∷ us) d h = (
    ground (arith, h.0, admit_one_other user u w old),
    keeps_Current existing user w old us (ground arith) h.1,
  )

  -- After the loop every listed user's row is the one said, and no other row of the room has changed.
  admit_all_rows :
      (existing : List RoomMember) (us : List Ident) (w : World) (b : Ident)
      → Distinct us
      → Current existing w us
      → find_member room b (admit_all room head existing us w).1 ≡ (
          if contains us b
          then some (admitted room b w.now head (find_member room b w))
          else find_member room b w)
  unfolding admit_all
  admit_all_rows existing [] w b d c = refl
  admit_all_rows existing (u ∷ us) w b d c =
      let old = find (is_member_row room u) existing in
      let v = (admit_one room u head old w).0 in
      let rest = admit_all_rows existing us v b d.1 (keeps_Current existing u w old us d.0 c.1) in
      elim (Bool-cases (u == b)) [
        | inl same ↦
            ground
              (arith, rest, admit_one_self u w old (sym c.0), c.0, admit_one_now u w old, d.0, same)
        | inr other ↦
            ground (arith, rest, admit_one_other u b w old other, admit_one_now u w old, other)
      ]

  admit_one-UniqueMembers :
      (user : Ident) (w : World) (old : Option RoomMember)
      → find_member room user w ≡ old
      → UniqueMembers w.members
      → UniqueMembers (admit_one room user head old w).0.members
  admit_one-UniqueMembers user w none e u = (e, u)
  admit_one-UniqueMembers user w (some m) e u = elim (Bool-cases (is_some m.left_at)) [
    | inl gone ↦ rw gone (
        update-UniqueMembers (is_member_row room user) (readmitted w.now head) (λ x. (refl, refl))
          w.members u)
    | inr there ↦ rw there u
  ]

  admit_one_owners :
      (user : Ident) (w : World) (old : Option RoomMember)
      → find_member room user w ≡ old
      → UniqueMembers w.members
      → count (owns room) (admit_one room user head old w).0.members ≡ count (owns room) w.members
  admit_one_owners user w none e u = ground arith
  admit_one_owners user w (some m) e u =
      let moved =
        count-update_where (is_member_row room user) (owns room) (readmitted w.now head) w.members m
          (AtMostOne-member room user w.members u) e in
      ground (arith, moved)

  admit_all_owners :
      (existing : List RoomMember) (us : List Ident) (w : World)
      → Distinct us
      → Current existing w us
      → UniqueMembers w.members
      → UniqueMembers (admit_all room head existing us w).1.members
        × (count (owns room) (admit_all room head existing us w).1.members
            ≡ count (owns room) w.members)
  unfolding admit_all
  admit_all_owners existing [] w d c u = (u, refl)
  admit_all_owners existing (x ∷ us) w d c u =
      let old = find (is_member_row room x) existing in
      let v = (admit_one room x head old w).0 in
      let (u', same) =
        admit_all_owners existing us v d.1 (keeps_Current existing x w old us d.0 c.1)
          (admit_one-UniqueMembers x w old (sym c.0) u) in
      (u', same ∙ admit_one_owners x w old (sym c.0) u)

  existing_rows-Current :
      (ids : List Ident) (w : World) → Current (existing_rows room ids w) w (dedup ids)
  existing_rows-Current ids w = All-contains _ (dedup ids) (λ x h.
      find-select (is_member_row room x) _ w.members (λ m k. ground (arith, contains-dedup ids x)))

  -- Where the rows are keyed by room and user, the loop of `addMembers` leaves each listed user with an
  -- active row: a user without one, or who had left, that of a plain member who joins now and has read up
  -- to the head, with the mute of the old row if there is one, and an active member the row as it was; no
  -- row of another user of the room changes, and neither does the number of its owners.
  pub admit_all_lem :
      (ids : List Ident) (w : World)
      → UniqueMembers w.members
      → let w' = (admit_all room head (existing_rows room ids w) (dedup ids) w).1 in
        ((b : Ident)
          → find_member room b w' ≡ (
              if contains ids b
              then some (admitted room b w.now head (find_member room b w))
              else find_member room b w))
        × UniqueMembers w'.members
        × (count (owns room) w'.members ≡ count (owns room) w.members)
  admit_all_lem ids w u =
      let existing = existing_rows room ids w in
      let d = dedup-Distinct ids in
      let c = existing_rows-Current ids w in
      let (u', same) = admit_all_owners existing (dedup ids) w d c u in
      (
        (λ b. ground (arith, admit_all_rows existing (dedup ids) w b d c, contains-dedup ids b)),
        u',
        same,
      )
