-- ===== src/Realtime/Connection/Lifecycle.antt =====
-- On the authentication, opening and closing of connections (src/realtime/realtime.gateway.ts).
use intaektok_be.Prelude.{
  ℕ, true, Option, none, some, List, [], ◌∷◌, ◌++◌, Ident, Text, ◌≡◌, refl, ap, ◌∙◌, inl, inr,
  arith, Bool-cases, Option-cases, codes, text_eq, lower, Lacks, split_on-append, split_on_one,
}
use intaektok_be.World.{World, Result, ok, err}
use intaektok_be.Auth.Jwt.{Jwt, is_access}
use intaektok_be.Auth.Session.{find_user, is_inactive}
use intaektok_be.Auth.Guards.{validate_token}
use intaektok_be.Realtime.Socket.{Client, Send}
use intaektok_be.Realtime.Connection.{
  bearer_of, bearer_from_header, verified, checked, authenticate, handle_connection,
  handle_disconnect,
}

abbrev pub returned : {A : Type 0} → Result A → Option A
returned (ok a) = some a
returned (err _) = none

authenticate_lem :
    (jwt : Jwt) (c : ℕ) (cs : Text) (header : Option Text) (w : World)
    → authenticate jwt (some (c ∷ cs)) header w
      ≡ returned (intaektok_be.Auth.Guards.authenticate jwt (c ∷ cs) w).0
unfolding authenticate intaektok_be.Auth.Guards.authenticate validate_token
authenticate_lem jwt c cs header w = elim (Option-cases (jwt.verify_access (c ∷ cs))) [
  | inl e ↦ rw e refl
  | inr (p, e) ↦ elim (Bool-cases (is_access p.kind)) [
    | inl a ↦ elim (Bool-cases (is_inactive (find_user p.sub w))) [
      | inl i ↦ rw (e, a, i) refl
      | inr i ↦ rw (e, a, i) refl
    ]
    | inr a ↦ rw (e, a) refl
  ]
]

-- The header of a token is read as the token.
bearer_from_header_lem :
    (scheme t : Text)
    → Lacks 32 scheme
    → Lacks 32 t
    → text_eq (lower scheme) (codes "bearer") ≡ true
    → bearer_from_header (some (scheme ++ 32 ∷ t)) ≡ some t
unfolding bearer_from_header codes
bearer_from_header_lem [] t l k e = absurd (ground (arith, e))
bearer_from_header_lem (s ∷ ss) t l k e =
    ap bearer_of (split_on-append 32 (s ∷ ss) t l ∙ ap (λ ps. (s ∷ ss) ∷ ps) (split_on_one 32 t k))
    ∙ rw e refl

-- A socket is let in with an access token exactly where a request is: for the same user, or not. It may
-- give the token in its handshake or, where the token has no space, in the header after the word
-- bearer, in letters of either case, and a space.
pub authenticate_agrees :
    (jwt : Jwt) (c : ℕ) (cs : Text) (w : World)
    → ((header : Option Text)
        → authenticate jwt (some (c ∷ cs)) header w
          ≡ returned (intaektok_be.Auth.Guards.authenticate jwt (c ∷ cs) w).0)
      × ((scheme : Text)
          → Lacks 32 scheme
          → Lacks 32 (c ∷ cs)
          → text_eq (lower scheme) (codes "bearer") ≡ true
          → authenticate jwt none (some (scheme ++ 32 ∷ c ∷ cs)) w
            ≡ returned (intaektok_be.Auth.Guards.authenticate jwt (c ∷ cs) w).0)
unfolding authenticate
authenticate_agrees jwt c cs w = (
  (λ header. authenticate_lem jwt c cs header w),
  λ scheme l k e.
      from_header scheme (bearer_from_header_lem scheme (c ∷ cs) l k e)
      ∙ authenticate_lem jwt c cs none w,
)
  where
    from_header :
        (scheme : Text)
        → bearer_from_header (some (scheme ++ 32 ∷ c ∷ cs)) ≡ some (c ∷ cs)
        → authenticate jwt none (some (scheme ++ 32 ∷ c ∷ cs)) w
          ≡ authenticate jwt (some (c ∷ cs)) none w
    from_header scheme e = ap (λ o. checked (verified jwt o) w) e

module _ (jwt : Jwt) (client : Client) (auth bearer : Option Text) (w : World) (user : Ident) where
  abbrev pub opened : Client × List Send × World
  opened = handle_connection jwt client auth bearer w

  abbrev pub closed : List Send × World
  closed = handle_disconnect opened.0 opened.2
