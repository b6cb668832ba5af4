-- ===== src/Messages/Create/Unique.antt =====
-- On the unique keys of messages under `createMessage` (src/messages/messages.service.ts).
use intaektok_be.Prelude.{ℕ, subst, sym, ◌≡◌, not, Option, none, some, Ident, arith}
use intaektok_be.Prisma.{Message}
use intaektok_be.World.{World, when, ◌>>=◌}
use intaektok_be.Common.Views.{SerializedMessage}
use intaektok_be.World.Keeps.{bind-Keeps, when-Keeps}
use intaektok_be.Env.{Env}
use intaektok_be.Messages.Checks.{CreateMessageParams, check_params}
use intaektok_be.Messages.Checks.Reads.{check_params_keeps}
use intaektok_be.Messages.Persist.{serialize, persist_with_seq}
use intaektok_be.Messages.Persist.Unique.{UniqueKeys, OthersKeep, persist_with_seq-UniqueKeys}
use intaektok_be.Messages.Create.{touch_room, emit_created, finish, create_new, create_message}

pub touch_room_keeps :
    (r : Ident) (at : ℕ) (w : World) → (touch_room r at w).1.messages ≡ w.messages
unfolding touch_room
touch_room_keeps r at w = ground arith

pub emit_created_keeps :
    (env : Env) (d : SerializedMessage) (p : CreateMessageParams) (w : World)
    → (emit_created env d p w).1.messages ≡ w.messages
unfolding emit_created
emit_created_keeps env d p w = ground arith

-- What follows the insert stores no message.
pub finish_keeps :
    (env : Env) (p : CreateMessageParams) (o : Option Message) (w : World)
    → (finish env p o w).1.messages ≡ w.messages
unfolding finish
finish_keeps env p none w = ground arith
finish_keeps env p (some m) w = ground (
  arith,
  touch_room_keeps p.room_id m.created_at w,
  emit_created_keeps env (serialize m) p (touch_room p.room_id m.created_at w).1,
)

abbrev Keyed : World → Type 0
Keyed w = UniqueKeys w.messages

create_new-UniqueKeys :
    (env : Env) (p : CreateMessageParams) (w : World)
    → OthersKeep env
    → UniqueKeys w.messages
    → UniqueKeys (create_new env p w).1.messages
unfolding create_new
create_new-UniqueKeys env p w k u =
    bind-Keeps Keyed (when (not p.is_system) (check_params p))
      (λ _. persist_with_seq env p >>= finish env p)
      (when-Keeps Keyed _ _ (λ v h. subst Keyed (sym (check_params_keeps p v)) h))
      (λ _.
        bind-Keeps Keyed (persist_with_seq env p) (finish env p)
          (λ v h. persist_with_seq-UniqueKeys env p v k h)
          (λ o v h. subst UniqueKeys (sym (finish_keeps env p o v)) h))
      w u

-- `createMessage` never stores two messages of a room with one number or one client message id,
-- whatever it is given and whatever other requests commit in between, if these keep the keys too.
pub create_message-UniqueKeys :
    (env : Env) (p : CreateMessageParams) (w : World)
    → OthersKeep env
    → UniqueKeys w.messages
    → UniqueKeys (create_message env p w).1.messages
unfolding create_message
create_message-UniqueKeys env p w k u = ground (arith, create_new-UniqueKeys env p w k u)
