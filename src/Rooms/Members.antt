-- ===== src/Rooms/Members.antt =====
-- The rows of `RoomMember`: their primary key, and the owner of a room.
use intaektok_be.Prelude.{
  ℕ, ◌≡◌, ◌⊎◌, inl, inr, refl, Bool, ◌&&◌, none, some, List, [], ◌∷◌, Ident, find, update_where,
  count, arith, AtMostOne, Bool-cases, In, find-holds, count-pos,
}
use intaektok_be.Prisma.{RoomMember, is_owner}
use intaektok_be.World.{World}
use intaektok_be.Env.{Env}
use intaektok_be.Messages.Create.Frame.{Frame}
use intaektok_be.Messages.Checks.{is_member_row, in_room}

-- `@@id([roomId, userId])`
abbrev pub UniqueMembers : List RoomMember → Type 0
UniqueMembers [] = Unit {0}
UniqueMembers (m ∷ ms) = (find (is_member_row m.room_id m.user_id) ms ≡ none) × UniqueMembers ms

pub AtMostOne-member :
    (room user : Ident) (ms : List RoomMember)
    → UniqueMembers ms
    → AtMostOne (is_member_row room user) ms
AtMostOne-member room user [] u = tt
AtMostOne-member room user (m ∷ ms) u = ((λ e. ground arith), AtMostOne-member room user ms u.1)

-- An active owner of the room.
abbrev pub owns : Ident → RoomMember → Bool
owns room m = in_room room m && is_owner m.role

-- A room has one active owner, or no active member at all.
abbrev pub HasOwner : Ident → List RoomMember → Type 0
HasOwner room ms = (count (owns room) ms ≡ 1) ⊎ (count (in_room room) ms ≡ 0)

-- What an update must leave alone.
abbrev pub KeepsKey : (RoomMember → RoomMember) → Type 0
KeepsKey f = (m : RoomMember) → ((f m).room_id ≡ m.room_id) × ((f m).user_id ≡ m.user_id)

module _ (p : RoomMember → Bool) (f : RoomMember → RoomMember) (k : KeepsKey f) where
  pub find-member-update :
      (room user : Ident) (ms : List RoomMember)
      → find (is_member_row room user) ms ≡ none
      → find (is_member_row room user) (update_where p f ms) ≡ none
  find-member-update room user [] h = refl
  find-member-update room user (m ∷ ms) h =
      ground (arith, k m, find-member-update room user ms (ground arith))

  pub update-UniqueMembers :
      (ms : List RoomMember) → UniqueMembers ms → UniqueMembers (update_where p f ms)
  update-UniqueMembers [] u = tt
  update-UniqueMembers (m ∷ ms) u = elim (Bool-cases (p m)) [
    | inl e ↦ rw e (
      rw ((k m).0, (k m).1) (find-member-update m.room_id m.user_id ms u.0),
      update-UniqueMembers ms u.1,
    )
    | inr e ↦ rw e (find-member-update m.room_id m.user_id ms u.0, update-UniqueMembers ms u.1)
  ]

-- The primary key finds every row.
pub find-member-In :
    (m : RoomMember) (ms : List RoomMember)
    → UniqueMembers ms
    → In m ms
    → find (is_member_row m.room_id m.user_id) ms ≡ some m
find-member-In m [] u i = absurd i
find-member-In m (x ∷ xs) u (inl same) = ground arith
find-member-In m (x ∷ xs) u (inr later) =
    let h = find-member-In m xs u.1 later in ground (arith, u.0, h)

-- The rows of the members are keyed, and the room has one active owner or no active member.
abbrev pub IsOwned : Ident → World → Type 0
IsOwned room w = UniqueMembers w.members × HasOwner room w.members

-- Other requests keep that too.
abbrev pub OthersKeepOwned : Env → Ident → Type 0
OthersKeepOwned env room =
    (left : ℕ) (w : World) → IsOwned room w → IsOwned room (env.others left w)

pub IsOwned-Frame : (env : Env) (room : Ident) → OthersKeepOwned env room → Frame env (IsOwned room)
IsOwned-Frame env room k = record {
  counter = λ w c h. h;
  message = λ w m h. h;
  rooms = λ w r at h. h;
  event = λ w e h. h;
  others = k;
}

-- A room with an active member has exactly one active owner.
pub one_owner :
    (room user : Ident) (w : World) (m : RoomMember)
    → IsOwned room w
    → find (is_member_row room user) w.members ≡ some m
    → m.left_at ≡ none
    → count (owns room) w.members ≡ 1
one_owner room user w m (u, inl one) found active = one
one_owner room user w m (u, inr nobody) found active =
    let held = find-holds (is_member_row room user) w.members m found in
    absurd (
      omega (
        arith,
        nobody,
        count-pos (is_member_row room user) (in_room room) w.members m found (ground (arith, held)),
      ))
