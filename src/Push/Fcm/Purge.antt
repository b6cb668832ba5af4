-- ===== src/Push/Fcm/Purge.antt =====
-- On the tokens that `onMessageCreated` (src/push/push.service.ts) drops on the responses of Firebase.
use intaektok_be.Prelude.{
  Bool, true, false, not, ◌&&◌, List, [], ◌∷◌, map, Ident, ◌==◌, select, contains, delete_where,
  ◌≡◌, refl, ap, ◌∙◌, arith, Bool-cases, inl, inr, contains-select,
}
use intaektok_be.Prisma.{PushToken}
use intaektok_be.Common.Events.{MessageCreatedEvent}
use intaektok_be.World.{World}
use intaektok_be.Push.{fcm_tokens, sent_to, deliver, on_message_created}
use intaektok_be.Push.Fcm.{
  Firebase, PushNotification, SendResponse, is_gone, invalid_of, send_to_tokens, notification_of,
  push_message,
}

invalid_of_lem :
    {Account : Type 0} (fcm : Firebase Account) (verdict : Ident → SendResponse) (ts : List Ident)
    → invalid_of fcm ts (map verdict ts) ≡ select (λ t. is_gone fcm (verdict t)) ts
invalid_of_lem fcm verdict [] = refl
invalid_of_lem fcm verdict (t ∷ ts) = rw (invalid_of_lem fcm verdict ts) refl

contains-delete_where :
    (bad : List Ident) (f : Ident) (ts : List PushToken)
    → contains (fcm_tokens (delete_where (λ (t : PushToken). contains bad t.fcm_token) ts)) f
      ≡ (contains (fcm_tokens ts) f && not (contains bad f))
contains-delete_where bad f [] = refl
contains-delete_where bad f (t ∷ ts) = elim (Bool-cases (t.fcm_token == f)) [
  | inl e ↦ elim (Bool-cases (contains bad t.fcm_token)) [
    | inl b ↦ ground (arith, e, b, same e, contains-delete_where bad f ts)
    | inr b ↦ ground (arith, e, b, same e)
  ]
  | inr e ↦ elim (Bool-cases (contains bad t.fcm_token)) [
    | inl b ↦ ground (arith, e, b, contains-delete_where bad f ts)
    | inr b ↦ ground (arith, e, b, contains-delete_where bad f ts)
  ]
]
  where
    same : (t.fcm_token == f) ≡ true → contains bad t.fcm_token ≡ contains bad f
    same e = ap (contains bad) (ground (arith, e))

delete_none : (ts : List PushToken) → delete_where (λ (t : PushToken). false) ts ≡ ts
delete_none [] = refl
delete_none (t ∷ ts) = ap (λ r. t ∷ r) (delete_none ts)

not_found : (b : Bool) → b ≡ (b && not false)
not_found true = refl
not_found false = refl

deliver_nothing : (ts : List Ident) (w : World) → deliver (λ _. []) ts w ≡ w
deliver_nothing [] w = refl
deliver_nothing (t ∷ ts) w =
    ap (λ rows. record w { push_tokens = rows }) (delete_none w.push_tokens)

deliver_lem :
    {Account : Type 0} (fcm : Firebase Account) (n : PushNotification)
    (verdict : Ident → SendResponse) (ts : List Ident) (w : World) (f : Ident)
    → ((us : List Ident) → fcm.respond us n ≡ map verdict us)
    → contains (fcm_tokens (deliver (send_to_tokens fcm true n) ts w).push_tokens) f
      ≡ (contains (fcm_tokens w.push_tokens) f && not (contains ts f && is_gone fcm (verdict f)))
unfolding send_to_tokens
deliver_lem fcm n verdict [] w f answers = not_found (contains (fcm_tokens w.push_tokens) f)
deliver_lem fcm n verdict (t ∷ ts) w f answers =
    contains-delete_where (invalid_of fcm (t ∷ ts) (fcm.respond (t ∷ ts) n)) f w.push_tokens
    ∙ ap (λ b. contains (fcm_tokens w.push_tokens) f && not b)
        (ap (λ rs. contains (invalid_of fcm (t ∷ ts) rs) f) (answers (t ∷ ts))
          ∙ ap (λ us. contains us f) (invalid_of_lem fcm verdict (t ∷ ts))
          ∙ contains-select (λ u. is_gone fcm (verdict u)) (t ∷ ts) f)

module _ {Account : Type 0} (fcm : Firebase Account) (event : MessageCreatedEvent) (w : World) where
  -- If Firebase answers each token it is sent in its place, then a new message leaves of the tokens
  -- exactly those that it was not sent to, and those whose answer is no error or another error than
  -- that the token is not registered or not valid. Without an app it changes nothing.
  pub push_message_purges :
      (verdict : Ident → SendResponse)
      → ((ts : List Ident) → fcm.respond ts (notification_of fcm event) ≡ map verdict ts)
      → ((f : Ident)
          → contains (fcm_tokens (push_message fcm true event w).push_tokens) f ≡ (
              contains (fcm_tokens w.push_tokens) f
              && not (contains (sent_to event w) f && is_gone fcm (verdict f))))
        × (push_message fcm false event w ≡ w)
  unfolding push_message on_message_created send_to_tokens
  push_message_purges verdict answers = (
    (λ f. deliver_lem fcm (notification_of fcm event) verdict (sent_to event w) w f answers),
    deliver_nothing (sent_to event w) w,
  )
