-- ===== src/Tests/Chat.antt =====
-- The theorems on messages, at a group of three.
use intaektok_be.Prelude.{
  true, false, none, some, ◌∷◌, map, find, select, is_some, ◌≡◌, refl, ◌↔◌, ◌≤◌, arith,
}
use intaektok_be.Prisma.{Message}
use intaektok_be.World.{World, Result, ok}
use intaektok_be.Messages.Seq.{has_seq, db_max_seq, next_seq}
use intaektok_be.Messages.Checks.{
  check_params, validate_payload, assert_active_member, find_message, in_room,
}
use intaektok_be.Messages.Checks.Sendable.{Sendable, check_params_iff}
use intaektok_be.Messages.Persist.{
  row_of, persist_with_seq, persist_attempts, insert_message, serialize,
}
use intaektok_be.Messages.Persist.Retries.{persist_with_seq_quiet}
use intaektok_be.Messages.Persist.Order.{
  Precede, IsCaughtUp, persist_with_seq-Precede, persist_out_of_order,
}
use intaektok_be.Messages.Persist.Unique.{UniqueKeys}
use intaektok_be.Messages.Create.{
  CreateMessageResult, create_message, create_new, finish, touch_room, emit_created,
}
use intaektok_be.Messages.Preview.{message_preview}
use intaektok_be.Messages.Create.Idempotent.{create_message_again}
use intaektok_be.Messages.Read.{mark_read, count_unread}
use intaektok_be.Messages.Read.Monotone.{read_to, mark_read-members, count_unread_falls}
use intaektok_be.Messages.Unsend.{soft_delete}
use intaektok_be.Messages.Unsend.Effect.{Unsendable, soft_delete_iff, soft_delete_erases}
use intaektok_be.Messages.History.{history, with_read_count}
use intaektok_be.Messages.History.Walk.{fetch_all, fetch_all-history}
use intaektok_be.Tests.{env, world, lagging, hello}

keyed : UniqueKeys world.messages
keyed = (refl, refl, (refl, refl, tt))

abbrev sent : Message
sent = row_of env (hello 1 74) 3 world

persist_with_seq_quiet_example :
    (w' : World) × (persist_with_seq env (hello 1 74) world ≡ (ok (some sent), w'))
    × (w'.messages ≡ sent ∷ world.messages)
    × (w'.counter 10 ≡ some 3)
    × (find (has_seq 10 3) world.messages ≡ none)
persist_with_seq_quiet_example = persist_with_seq_quiet env (hello 1 74) world (λ left w. refl) refl

persist_with_seq-Precede_example :
    (m : Message) × (w' : World) × (persist_with_seq env (hello 1 74) world ≡ (ok (some m), w'))
    × (w'.messages ≡ m ∷ world.messages)
    × Precede 10 m.seq world.messages
    × IsCaughtUp 10 w'
persist_with_seq-Precede_example =
    persist_with_seq-Precede env (hello 1 74) world (λ left w. refl) refl (λ c e. cc)

persist_out_of_order_example :
    (m : Message) × (w' : World) × (persist_with_seq env (hello 1 74) lagging ≡ (ok (some m), w'))
    × (w'.messages ≡ m ∷ lagging.messages)
    × (Precede 10 m.seq lagging.messages ↔ (is_some (find (has_seq 10 3) lagging.messages) ≡ true))
persist_out_of_order_example =
    persist_out_of_order env (hello 1 74) lagging (λ left w. refl) refl refl (ground arith)

check_params_iff_example :
    ((check_params (hello 2 74) world).0 ≡ ok tt) ↔ Sendable (hello 2 74) world
check_params_iff_example = check_params_iff (hello 2 74) world

abbrev after : Result CreateMessageResult × World
after = create_message env (hello 1 74) world

abbrev first_result : CreateMessageResult
first_result = record { message = serialize sent; duplicate = false }

create_message_again_example :
    create_message env (hello 2 74) after.1
    ≡ (ok (record { message = first_result.message; duplicate = true }), after.1)
unfolding create_message create_new check_params assert_active_member validate_payload
    persist_with_seq persist_attempts next_seq insert_message finish touch_room emit_created
    message_preview serialize
create_message_again_example =
    create_message_again env (hello 1 74) (hello 2 74) world after.1 first_result (ground arith)
      refl refl refl refl

fetch_all-history_example :
    fetch_all 3 10 none 1 world
    ≡ some (map (with_read_count (select (in_room 10) world.members)) (history 10 world))
unfolding history
fetch_all-history_example = fetch_all-history 10 world 0 3 keyed (ground arith)

mark_read-members_example : (mark_read 10 2 2 world).1.members ≡ map (read_to 10 2 2) world.members
mark_read-members_example = mark_read-members 10 2 2 world

count_unread_falls_example :
    (count_unread 10 1 2 world ≤ count_unread 10 1 0 world)
    × (db_max_seq 10 world ≤ 2 → count_unread 10 1 2 world ≡ 0)
count_unread_falls_example = count_unread_falls 10 1 0 2 world (ground arith)

soft_delete_iff_example : ((soft_delete env 10 20 1 world).0 ≡ ok tt) ↔ Unsendable env 10 20 1 world
soft_delete_iff_example = soft_delete_iff env 10 20 1 world

abbrev erased : World
erased = (soft_delete env 10 20 1 world).1

soft_delete_erases_example :
    (m : Message) × (find_message (some 20) erased ≡ some m)
    × (is_some m.deleted_at ≡ true)
    × ((serialize m).content ≡ none)
    × ((serialize m).media_id ≡ none)
    × (soft_delete env 10 20 1 erased ≡ (ok tt, erased))
unfolding soft_delete
soft_delete_erases_example = soft_delete_erases env 10 20 1 world erased refl
