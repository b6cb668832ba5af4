-- ===== src/Messages/Read/Monotone.antt =====
-- On `markRead` and `countUnread` (src/messages/messages.service.ts).
use intaektok_be.Prelude.{
  ℕ, ◌≤◌, ◌≡◌, refl, ◌&&◌, List, [], ◌∷◌, map, Ident, ◌==◌, leb, if◌then◌else◌, count, update_where,
  arith,
}
use intaektok_be.Prisma.{Message, RoomMember}
use intaektok_be.World.{World, ok}
use intaektok_be.Messages.Seq.{max_seq, db_max_seq}
use intaektok_be.Messages.Checks.{in_room}
use intaektok_be.Messages.Read.{advances, mark_read, is_unread, count_unread}

abbrev pub later : ℕ → ℕ → ℕ
later a b = if leb a b then b else a

-- The row of a member who has read up to `n`: an active row of the user in the room.
abbrev pub read_to : Ident → Ident → ℕ → RoomMember → RoomMember
read_to room user n r =
    if in_room room r && r.user_id == user
    then record r { last_read_seq = later r.last_read_seq n }
    else r

update-read_to :
    (room user : Ident) (n : ℕ) (rs : List RoomMember)
    → update_where (advances room user n) (λ (r : RoomMember). record r { last_read_seq = n }) rs
      ≡ map (read_to room user n) rs
update-read_to room user n [] = refl
update-read_to room user n (r ∷ rs) = ground (arith, update-read_to room user n rs)

-- `markRead` takes the read position of the user's active row to the larger of what it was and the
-- number given, and changes no other row.
pub mark_read-members :
    (room user : Ident) (n : ℕ) (w : World)
    → (mark_read room user n w).1.members ≡ map (read_to room user n) w.members
unfolding mark_read
mark_read-members room user n w = ground (arith, update-read_to room user n w.members)

map-read_to_twice :
    (room user : Ident) (a b : ℕ) (rs : List RoomMember)
    → map (read_to room user b) (map (read_to room user a) rs)
      ≡ map (read_to room user (later a b)) rs
map-read_to_twice room user a b [] = refl
map-read_to_twice room user a b (r ∷ rs) = ground (arith, map-read_to_twice room user a b rs)

-- Two receipts of a user, in whichever order they come, leave the rows as the later one alone does.
pub mark_read_twice :
    (room user : Ident) (a b : ℕ) (w : World)
    → (mark_read room user b (mark_read room user a w).1).1.members
      ≡ (mark_read room user (later a b) w).1.members
mark_read_twice room user a b w =
    rw
      (
        mark_read-members room user b,
        mark_read-members room user a w,
        mark_read-members room user (later a b) w,
      )
      (map-read_to_twice room user a b w.members)

count-zero_same :
    (room user : Ident) (n : ℕ) (rs : List RoomMember)
    → count (advances room user n) rs ≡ 0
    → map (read_to room user n) rs ≡ rs
count-zero_same room user n [] h = refl
count-zero_same room user n (r ∷ rs) h = ground (arith, count-zero_same room user n rs)

-- A receipt that advances no row, of a user who is no active member or has read as far, changes
-- nothing and emits nothing.
pub mark_read_stale :
    (room user : Ident) (n : ℕ) (w : World)
    → count (advances room user n) w.members ≡ 0
    → mark_read room user n w ≡ (ok tt, w)
unfolding mark_read
mark_read_stale room user n w h =
    ground (arith, update-read_to room user n w.members, count-zero_same room user n w.members h)

count_unread_at :
    (room user : Ident) (n : ℕ) (ms : List Message)
    → max_seq room ms ≤ n
    → count (is_unread room user n) ms ≡ 0
count_unread_at room user n [] h = refl
count_unread_at room user n (m ∷ ms) h = ground (arith, count_unread_at room user n ms)

count_unread-le :
    (room user : Ident) (a b : ℕ) (ms : List Message)
    → a ≤ b
    → count (is_unread room user b) ms ≤ count (is_unread room user a) ms
count_unread-le room user a b [] h = omega arith
count_unread-le room user a b (m ∷ ms) h = ground (arith, count_unread-le room user a b ms h)

-- Reading further never raises a user's unread count, and at the newest message of the room it is 0.
pub count_unread_falls :
    (room user : Ident) (a b : ℕ) (w : World)
    → a ≤ b
    → (count_unread room user b w ≤ count_unread room user a w)
      × (db_max_seq room w ≤ b → count_unread room user b w ≡ 0)
unfolding count_unread
count_unread_falls room user a b w h =
    (count_unread-le room user a b w.messages h, count_unread_at room user b w.messages)
