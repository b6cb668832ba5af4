-- ===== src/Messages/History.antt =====
-- src/messages/messages.service.ts: `listMessages`, a page of a room's history by cursor.
pub mod Pages
pub mod Walk
use intaektok_be.Prelude.{
  ℕ, zero, suc, ◌+◌, Bool, true, false, not, ◌&&◌, Option, none, some, List, [], ◌∷◌, map, Ident,
  ◌==◌, ltb, leb, if◌then◌else◌, select, count, take, length,
}
use intaektok_be.Prisma.{Message, RoomMember}
use intaektok_be.Common.Errors.{thrown, validation}
use intaektok_be.Common.Views.{SerializedMessage}
use intaektok_be.World.{World, Call, pure, throw, gets, or_throw, ◌>>=◌, ◌>>◌, throw_if}
use intaektok_be.Messages.Checks.{in_room}
use intaektok_be.Messages.Persist.{serialize}

-- `Paginated<T>` (src/common/dto/pagination.dto.ts)
pub record Paginated (A : Type 0) : Type 0 where
  pub items : List A
  pub next_cursor : Option ℕ

-- `Number(cursor)`, for a cursor that is not empty.
pub data Cursor : Type 0 where
  integer : ℕ → Cursor
  negative fraction not_finite : Cursor

abbrev pub insert_desc : Message → List Message → List Message
insert_desc m [] = m ∷ []
insert_desc m (x ∷ xs) = if leb x.seq m.seq then m ∷ x ∷ xs else x ∷ insert_desc m xs

-- `orderBy: { seq: 'desc' }`
abbrev pub order_desc : List Message → List Message
order_desc [] = []
order_desc (m ∷ ms) = insert_desc m (order_desc ms)

abbrev pub of_room : Ident → Message → Bool
of_room room m = m.room_id == room

-- The messages of a room, latest first.
unfoldable pub history : Ident → World → List Message
history room w = order_desc (select (of_room room) w.messages)

abbrev pub before : Option ℕ → Message → Bool
before none m = true
before (some c) m = ltb m.seq c

-- `where.seq = { lt: BigInt(c) }`: nothing has a number below a negative one, and `BigInt` of a
-- fraction throws.
abbrev pub bound : Option Cursor → Call (Option ℕ)
bound none = pure none
bound (some (integer c)) = pure (some c)
bound (some negative) = pure (some 0)
bound (some fraction) = throw thrown
bound (some not_finite) = throw (validation "cursor가 올바르지 않습니다.")

-- Active members but the sender who have read as far as the message.
abbrev pub has_read : Message → RoomMember → Bool
has_read m r = not (r.user_id == m.sender_id) && leb m.seq r.last_read_seq

unfoldable pub with_read_count : List RoomMember → Message → SerializedMessage
unfolding serialize
with_read_count members m = record (serialize m) { read_count = some (count (has_read m) members) }

abbrev pub last_seq : List Message → Option ℕ
last_seq [] = none
last_seq (m ∷ []) = some m.seq
last_seq (m ∷ x ∷ xs) = last_seq (x ∷ xs)

-- The rows of a page, and whether there are more.
abbrev pub page_of : ℕ → List Message → List Message
page_of limit rows = if ltb limit (length rows) then take limit rows else rows

-- `page[page.length - 1].seq`, which fails on an empty page.
abbrev pub next_cursor_of : ℕ → List Message → Call (Option ℕ)
next_cursor_of limit rows =
    if ltb limit (length rows)
    then (do c ← or_throw (last_seq (page_of limit rows)) thrown; pure (some c))
    else pure none

unfoldable pub list_messages : Ident → Option Cursor → ℕ → Call (Paginated SerializedMessage)
list_messages room cursor limit = do
  c ← bound cursor
  rows ← gets (λ w. take (suc limit) (select (before c) (history room w)))
  members ← gets (λ w. select (in_room room) w.members)
  next ← next_cursor_of limit rows
  pure (record { items = map (with_read_count members) (page_of limit rows); next_cursor = next })
