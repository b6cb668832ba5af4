-- ===== src/Messages/Checks/Sendable.antt =====
-- On the checks of `createMessage` (src/messages/messages.service.ts): what a client may send, said
-- independently of their order.
use intaektok_be.Prelude.{◌≡◌, ◌↔◌, true, false, Option, none, some, Ident, Text, arith, truthy}
use intaektok_be.Prisma.{Message, MessageType, text, system, RoomMember, Media}
use intaektok_be.World.{World, ok}
use intaektok_be.Messages.Checks.Reads.{
  assert_active_member_keeps, validate_payload_keeps, assert_owned_media_keeps,
  assert_reply_target_keeps,
}
use intaektok_be.Messages.Checks.{
  CreateMessageParams, check_params, validate_payload, assert_active_member, assert_owned_media,
  assert_reply_target, find_member, find_media, find_message, has_no_body, is_media_type,
}

-- A text has a body that is not blank, a media message a media id; no other type is sent.
abbrev pub HasBody : MessageType → Option Text → Option Ident → Type 0
HasBody text content media_id = has_no_body content ≡ false
HasBody kind content media_id = (is_media_type kind ≡ true) × (truthy media_id ≡ true)

pub record Sendable (p : CreateMessageParams) (w : World) : Type 0 where
  pub member :
      (r : RoomMember) × (find_member p.room_id p.sender_id w ≡ some r) × (r.left_at ≡ none)
  pub body : HasBody p.kind p.content p.media_id
  pub attached :
      truthy p.media_id ≡ true
      → (m : Media) × (find_media p.media_id w ≡ some m) × (m.uploader_id ≡ p.sender_id)
  pub answered :
      truthy p.reply_to_id ≡ true
      → (m : Message) × (find_message p.reply_to_id w ≡ some m) × (m.room_id ≡ p.room_id)

assert_active_member_iff :
    (room user : Ident) (w : World)
    → ((assert_active_member room user w).0 ≡ ok tt)
      ↔ ((r : RoomMember) × (find_member room user w ≡ some r) × (r.left_at ≡ none))
unfolding assert_active_member
assert_active_member_iff room user w = (λ h. ground arith, λ (r, e, l). ground arith)

validate_payload_iff :
    (k : MessageType) (c : Option Text) (i : Option Ident) (w : World)
    → ((validate_payload k c i w).0 ≡ ok tt) ↔ HasBody k c i
unfolding validate_payload
validate_payload_iff text c i w = (λ h. ground arith, λ h. ground arith)
validate_payload_iff system c i w = (λ h. ground arith, λ h. ground arith)
validate_payload_iff _ c i w = (λ h. ground arith, λ h. ground arith)

assert_owned_media_iff :
    (i : Option Ident) (user : Ident) (w : World)
    → ((assert_owned_media i user w).0 ≡ ok tt)
      ↔ ((m : Media) × (find_media i w ≡ some m) × (m.uploader_id ≡ user))
unfolding assert_owned_media
assert_owned_media_iff i user w = (λ h. ground arith, λ (m, e, o). ground arith)

assert_reply_target_iff :
    (room : Ident) (i : Option Ident) (w : World)
    → ((assert_reply_target room i w).0 ≡ ok tt)
      ↔ ((m : Message) × (find_message i w ≡ some m) × (m.room_id ≡ room))
unfolding assert_reply_target
assert_reply_target_iff room i w = (λ h. ground arith, λ (m, e, o). ground arith)

abbrev Passes : CreateMessageParams → World → Type 0
Passes p w =
    ((assert_active_member p.room_id p.sender_id w).0 ≡ ok tt)
    × ((validate_payload p.kind p.content p.media_id w).0 ≡ ok tt)
    × (truthy p.media_id ≡ true → (assert_owned_media p.media_id p.sender_id w).0 ≡ ok tt)
    × (truthy p.reply_to_id ≡ true → (assert_reply_target p.room_id p.reply_to_id w).0 ≡ ok tt)

passes : (p : CreateMessageParams) (w : World) → (check_params p w).0 ≡ ok tt → Passes p w
unfolding check_params
passes p w h =
    let a = assert_active_member_keeps p.room_id p.sender_id w in
    let b = validate_payload_keeps p.kind p.content p.media_id w in
    let c = assert_owned_media_keeps p.media_id p.sender_id w in
    (
      ground (arith, a, b, c),
      ground (arith, a, b, c),
      λ t. ground (arith, a, b, c),
      λ t. ground (arith, a, b, c),
    )

passed : (p : CreateMessageParams) (w : World) → Passes p w → (check_params p w).0 ≡ ok tt
unfolding check_params
passed p w (m, v, o, r) = ground (
  arith,
  assert_active_member_keeps p.room_id p.sender_id w,
  validate_payload_keeps p.kind p.content p.media_id w,
  assert_owned_media_keeps p.media_id p.sender_id w,
  assert_reply_target_keeps p.room_id p.reply_to_id w,
)

-- A client's message passes the checks exactly when its sender is an active member of the room, its
-- body fits its type, the media that it attaches was uploaded by its sender, and the message that it
-- answers is of the same room.
pub check_params_iff :
    (p : CreateMessageParams) (w : World) → ((check_params p w).0 ≡ ok tt) ↔ Sendable p w
check_params_iff p w = (
  (λ h.
      let (m, v, o, r) = passes p w h in
      record {
        member = (assert_active_member_iff p.room_id p.sender_id w).0 m;
        body = (validate_payload_iff p.kind p.content p.media_id w).0 v;
        attached = λ t. (assert_owned_media_iff p.media_id p.sender_id w).0 (o t);
        answered = λ t. (assert_reply_target_iff p.room_id p.reply_to_id w).0 (r t);
      }),
  λ s. passed p w (
    (assert_active_member_iff p.room_id p.sender_id w).1 s.member,
    (validate_payload_iff p.kind p.content p.media_id w).1 s.body,
    (λ t. (assert_owned_media_iff p.media_id p.sender_id w).1 (s.attached t)),
    λ t. (assert_reply_target_iff p.room_id p.reply_to_id w).1 (s.answered t),
  ),
)
