-- ===== src/Api/Blocked.antt =====
-- On blocking an entry of the whitelist through src/admin/admin.controller.ts, and the requests of its
-- user after it.
use intaektok_be.Prelude.{
  true, false, Option, none, some, Ident, Text, ◌==◌, find, ◌≡◌, ◌≢◌, refl, ap, ◌∙◌, arith,
  Bool-cases, inl, inr, sym, subst,
}
use intaektok_be.Prisma.{User, Whitelist, WhitelistStatus}
use intaektok_be.World.{World, Call, ◌>>=◌, pure}
use intaektok_be.World.Keeps.{map_world}
use intaektok_be.Auth.Jwt.{TokenPayload, is_access}
use intaektok_be.Auth.Session.{find_user, is_inactive, refresh, refresh_verified}
use intaektok_be.Auth.Login.{find_whitelist, find_kakao}
use intaektok_be.Admin.{UpdateWhitelistDto, update, is_entry}
use intaektok_be.Admin.Block.{IsOut, Refused, update_blocks, refresh_verified-Refused}
use intaektok_be.Api.{Server, Access, Caller, guards, run_guards}
use intaektok_be.Api.Routes.{
  Request, whitelist_update, auth_refresh, entry, tokens, access_of, room_of, handle, serve,
}
use intaektok_be.Api.Passing.{caller_of, grants, may_call}
use intaektok_be.Api.Gate.{Denied, serve_gate}

handle-whitelist_update :
    (s : Server) (c : Caller) (id : Ident) (dto : UpdateWhitelistDto) (w : World)
    → (handle s c (whitelist_update id dto) w).1 ≡ (update id dto w).1
unfolding handle intaektok_be.Api.Whitelist.update
handle-whitelist_update s c id dto w = map_world entry (update id dto) w

-- The token of a suspended account is no user's.
pub caller_of-none :
    (s : Server) (t : Text) (p : TokenPayload) (u : User) (v : World)
    → s.jwt.verify_access t ≡ some p
    → find_user p.sub v ≡ some u
    → is_inactive (some u) ≡ true
    → caller_of s.jwt (some t) v ≡ none
caller_of-none s t p u v e f h = elim (Bool-cases (is_access p.kind)) [
  | inl a ↦ ground (arith, e, f, h, a)
  | inr a ↦ ground (arith, e, f, h, a)
]

grants-none :
    (s : Server) (a : Access) (room : Ident) (w : World)
    → a ≢ Access.public
    → grants s a room none w ≡ false
grants-none s Access.public room w n = absurd (n refl)
grants-none s Access.signed_in room w n = refl
grants-none s Access.ready room w n = refl
grants-none s Access.member room w n = refl
grants-none s Access.console room w n = refl

-- A request of nobody is denied on every route that wants a user.
pub stranger-Denied :
    (s : Server) (t : Text) (req : Request) (v : World)
    → caller_of s.jwt (some t) v ≡ none
    → access_of req ≢ Access.public
    → Denied none (serve s (some t) req v) v
stranger-Denied s t req v e n =
    subst (λ c. Denied c (serve s (some t) req v) v) e
      ((serve_gate s (some t) req v).1 (
        ap (λ c. grants s (access_of req) (room_of req) c v) e
        ∙ grants-none s (access_of req) (room_of req) v n))

Refused-bind :
    {A B : Type 0} (m : Call A) (f : A → Call B) (w : World) → Refused (m w) → Refused ((m >>= f) w)
Refused-bind m f w (e, h) = (e, ap (λ r. (((λ v. (r, (m v).1)) >>= f) w).0) h)

pub serve-auth_refresh :
    (s : Server) (token : Option Text) (t : Text) (p : TokenPayload) (v : World)
    → s.jwt.verify_refresh t ≡ some p
    → Refused (refresh_verified s.jwt p v)
    → Refused (serve s token (auth_refresh t) v)
unfolding serve run_guards guards access_of handle intaektok_be.Api.Accounts.refresh refresh
serve-auth_refresh s token t p v e h =
    Refused-bind (refresh s.jwt t) (λ a. pure (tokens a)) v (rw e h)

module _ (s : Server) (admin_token token : Option Text) (id k : Ident) (dto : UpdateWhitelistDto)
    (x : Whitelist) (u : User) (w : World) where
  abbrev after : World
  after = (serve s admin_token (whitelist_update id dto) w).1

  -- Once an admin has set the entry of an identity that has an account to BLOCKED over the API, every
  -- request with an access token of its user, on whatever route but login, refresh and logout, fails
  -- with 401 and changes nothing, and none of the user's refresh tokens is exchanged.
  pub blocked_is_shut_out :
      may_call s admin_token (whitelist_update id dto) w ≡ true
      → find (is_entry id) w.whitelist ≡ some x
      → find_whitelist k w ≡ some x
      → (k == 0) ≡ false
      → find_kakao k w ≡ some u
      → find_user u.id w ≡ some u
      → dto.status ≡ some (some WhitelistStatus.blocked)
      → (t : Text) (p : TokenPayload) → p.sub ≡ u.id
      → (s.jwt.verify_access t ≡ some p
          → (req : Request) → access_of req ≢ Access.public
          → Denied none (serve s (some t) req after) after)
        × (s.jwt.verify_refresh t ≡ some p → Refused (serve s token (auth_refresh t) after))
  blocked_is_shut_out may found named k0 account user status t p sub = (
    (λ e req n. stranger-Denied s t req after (stranger e) n),
    λ e.
        serve-auth_refresh s token t p after e
          (refresh_verified-Refused u.id w after s.jwt p sub out),
  )
    where
      same : after ≡ (update id dto w).1
      same =
          ap (λ r. r.1) ((serve_gate s admin_token (whitelist_update id dto) w).0 may)
          ∙ handle-whitelist_update s _ id dto w

      out : IsOut u.id w after
      out =
          let (_, shut_out, _, _) =
            update_blocks id k dto x u w found named k0 account user status in
          subst (IsOut u.id w) (sym same) shut_out

      stranger : s.jwt.verify_access t ≡ some p → caller_of s.jwt (some t) after ≡ none
      stranger e =
          let ((y, f, g), _, _) = out in
          caller_of-none s t p y after e (ap (λ i. find_user i after) sub ∙ f) (rw g refl)
