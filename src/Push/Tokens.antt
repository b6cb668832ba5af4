-- ===== src/Push/Tokens.antt =====
-- On `registerToken` (src/push/push.service.ts).
use intaektok_be.Prelude.{
  true, none, some, List, [], ◌∷◌, Ident, ◌==◌, if◌then◌else◌, find, update_where, ◌≡◌, refl, ap,
  ◌∙◌, arith, Bool-cases, Option-cases, ==_refl, inl, inr, AtMostOne, find-update_where,
}
use intaektok_be.Prisma.{PushToken}
use intaektok_be.World.{World, ok}
use intaektok_be.Env.{Env}
use intaektok_be.Push.{RegisterTokenDto, register_token, has_token, reassigned, new_token}

-- No two rows have the same FCM token.
abbrev pub UniqueTokens : World → Type 0
UniqueTokens w = (f : Ident) → AtMostOne (has_token f) w.push_tokens

module _ (user : Ident) (dto : RegisterTokenDto) (f : Ident) where
  reassigned-find :
      (ts : List PushToken)
      → find (has_token f) ts ≡ none
      → find (has_token f) (update_where (has_token dto.fcm_token) (reassigned user dto) ts) ≡ none
  reassigned-find [] h = refl
  reassigned-find (t ∷ ts) h = elim (Bool-cases (has_token dto.fcm_token t)) [
    | inl e ↦ ground (arith, e, reassigned-find ts (ground (arith, h)))
    | inr e ↦ ground (arith, e, reassigned-find ts (ground (arith, h)))
  ]

  reassigned-AtMostOne :
      (ts : List PushToken)
      → AtMostOne (has_token f) ts
      → AtMostOne (has_token f) (update_where (has_token dto.fcm_token) (reassigned user dto) ts)
  reassigned-AtMostOne [] u = tt
  reassigned-AtMostOne (t ∷ ts) u =
      ((λ e. reassigned-find ts (u.0 (same e))), reassigned-AtMostOne ts u.1)
    where
      same :
          has_token f (if has_token dto.fcm_token t then reassigned user dto t else t) ≡ true
          → has_token f t ≡ true
      same e = elim (Bool-cases (has_token dto.fcm_token t)) [
        | inl a ↦ rw a at e
        | inr a ↦ rw a at e
      ]

-- A registration leaves the FCM tokens unique, and the row of the token is one of the user, with the
-- platform and the device of the request, whoever had the token before.
register_token_owner :
    (env : Env) (user : Ident) (dto : RegisterTokenDto) (w : World)
    → UniqueTokens w
    → UniqueTokens (register_token env user dto w).1
      × ((t : PushToken) × (find
              (has_token dto.fcm_token)
              ((register_token env user dto w).1).push_tokens
            ≡ some t)
          × (t.user_id ≡ user)
          × (t.platform ≡ dto.platform)
          × (t.device_id ≡ dto.device_id)
          × ((register_token env user dto w).0 ≡ ok t))
unfolding register_token
register_token_owner env user dto w u =
    elim (Option-cases (find (has_token dto.fcm_token) w.push_tokens)) [
      | inl e ↦ rw e (
        (λ f. ((λ t. fresh f t e), u f)),
        (new_token env user dto w, rw (==_refl dto.fcm_token) refl, refl, refl, refl, refl),
      )
      | inr (t, e) ↦ rw e (
        (λ f. reassigned-AtMostOne user dto f w.push_tokens (u f)),
        (
          reassigned user dto t,
          find-update_where (has_token dto.fcm_token) (reassigned user dto) w.push_tokens t
              (λ x h. h) e,
          refl,
          refl,
          refl,
          refl,
        ),
      )
    ]
  where
    fresh :
        (f : Ident)
        → (dto.fcm_token == f) ≡ true
        → find (has_token dto.fcm_token) w.push_tokens ≡ none
        → find (has_token f) w.push_tokens ≡ none
    fresh f t e = ap (λ i. find (has_token i) w.push_tokens) (ground arith) ∙ e
