-- ===== src/Messages/Checks/Reads.antt =====
-- On the state after the checks of `createMessage` (src/messages/messages.service.ts).
use intaektok_be.Prelude.{◌≡◌, Option, Ident, Text, arith}
use intaektok_be.Prisma.{MessageType, text, system}
use intaektok_be.World.{World}
use intaektok_be.Messages.Checks.{
  CreateMessageParams, check_params, validate_payload, assert_active_member, assert_owned_media,
  assert_reply_target,
}

pub validate_payload_keeps :
    (k : MessageType) (c : Option Text) (i : Option Ident) (w : World)
    → (validate_payload k c i w).1 ≡ w
unfolding validate_payload
validate_payload_keeps text c i w = ground arith
validate_payload_keeps system c i w = ground arith
validate_payload_keeps _ c i w = ground arith

pub assert_owned_media_keeps :
    (i : Option Ident) (u : Ident) (w : World) → (assert_owned_media i u w).1 ≡ w
unfolding assert_owned_media
assert_owned_media_keeps i u w = ground arith

pub assert_reply_target_keeps :
    (r : Ident) (i : Option Ident) (w : World) → (assert_reply_target r i w).1 ≡ w
unfolding assert_reply_target
assert_reply_target_keeps r i w = ground arith

pub assert_active_member_keeps : (r u : Ident) (w : World) → (assert_active_member r u w).1 ≡ w
unfolding assert_active_member
assert_active_member_keeps r u w = ground arith

-- The checks only read.
pub check_params_keeps : (p : CreateMessageParams) (w : World) → (check_params p w).1 ≡ w
unfolding check_params
check_params_keeps p w = ground (
  arith,
  assert_active_member_keeps p.room_id p.sender_id w,
  validate_payload_keeps p.kind p.content p.media_id w,
  assert_owned_media_keeps p.media_id p.sender_id w,
  assert_reply_target_keeps p.room_id p.reply_to_id w,
)
