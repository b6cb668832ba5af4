-- ===== src/Admin/Requests.antt =====
-- On the approval of access requests (src/admin/admin.service.ts).
use intaektok_be.Prelude.{
  suc, true, false, none, some, ◌∷◌, Ident, find, delete_where, ◌≡◌, refl, ap, ◌∙◌, ◌⊎◌, inl, inr,
  arith, Bool-cases, Option-cases, ==_refl, find-delete_where, find-holds,
}
use intaektok_be.Prisma.{Whitelist, AccessRequest, is_blocked}
use intaektok_be.Common.Errors.{conflict}
use intaektok_be.World.{World, Result, ok, err, pure, modify, ◌>>◌}
use intaektok_be.World.Keeps.{bind_ok}
use intaektok_be.Env.{Env}
use intaektok_be.Auth.Login.{find_whitelist}
use intaektok_be.Admin.{approve_access_request, is_request, add_entry, approved, drop_request}

add_entry_new :
    (x : Whitelist) (k : Ident) (w : World)
    → x.kakao_id ≡ some k
    → find_whitelist k w ≡ none
    → add_entry x w ≡ (ok tt, record w { whitelist = x ∷ w.whitelist; issued = suc w.issued })
add_entry_new x k w e f = rw (e, f) refl

module _ (env : Env) (id by : Ident) (r : AccessRequest) (w : World) where
  approve_blocked :
      (x : Whitelist)
      → find (is_request id) w.access_requests ≡ some r
      → find_whitelist r.kakao_id w ≡ some x
      → is_blocked x.status ≡ true
      → approve_access_request env id by w ≡ (err (conflict "차단된 사용자입니다. 먼저 차단을 해제하세요."), w)
  unfolding approve_access_request
  approve_blocked x f g b = rw (f, g, b) refl

  approve_listed :
      (x : Whitelist)
      → find (is_request id) w.access_requests ≡ some r
      → find_whitelist r.kakao_id w ≡ some x
      → is_blocked x.status ≡ false
      → approve_access_request env id by w ≡ (ok x, drop_request r.id w)
  unfolding approve_access_request
  approve_listed x f g b = rw (f, g, b) refl

  approve_unlisted :
      find (is_request id) w.access_requests ≡ some r
      → find_whitelist r.kakao_id w ≡ none
      → approve_access_request env id by w ≡ (
        ok (approved env r by w),
        drop_request r.id
            (record w { whitelist = approved env r by w ∷ w.whitelist; issued = suc w.issued }),
      )
  unfolding approve_access_request
  approve_unlisted f g =
      rw (f, g)
        (bind_ok (add_entry (approved env r by w))
          (λ _. modify (drop_request r.id) >> pure (approved env r by w)) w
          (record w { whitelist = approved env r by w ∷ w.whitelist; issued = suc w.issued }) tt
          (add_entry_new (approved env r by w) r.kakao_id w refl g))

-- What an approval ends with, for an applicant: an entry that is not blocked and no request.
abbrev pub Approved : Ident → Ident → Result Whitelist × World → Type 0
Approved id kakao_id r =
    (x : Whitelist) × (r.0 ≡ ok x)
    × (find_whitelist kakao_id r.1 ≡ some x)
    × (is_blocked x.status ≡ false)
    × (find (is_request id) (r.1).access_requests ≡ none)

-- The applicant's entry on the whitelist is blocked.
abbrev pub IsBlockedOut : Ident → World → Type 0
IsBlockedOut kakao_id w =
    (x : Whitelist) × (find_whitelist kakao_id w ≡ some x) × (is_blocked x.status ≡ true)

-- The approval of a pending request is refused, and changes nothing, exactly if the applicant's entry
-- on the whitelist is blocked; otherwise the applicant has an entry that lets the next login in, and
-- the request is gone.
pub approve_admits :
    (env : Env) (id by : Ident) (r : AccessRequest) (w : World)
    → find (is_request id) w.access_requests ≡ some r
    → (IsBlockedOut r.kakao_id w
        × (approve_access_request env id by w ≡ (err (conflict "차단된 사용자입니다. 먼저 차단을 해제하세요."), w)))
      ⊎ (¬ IsBlockedOut r.kakao_id w × Approved id r.kakao_id (approve_access_request env id by w))
approve_admits env id by r w f = elim (Option-cases (find_whitelist r.kakao_id w)) [
  | inl g ↦ inr (
    (λ (y, f, _). cc),
    rw (approve_unlisted env id by r w f g)
        (approved env r by w, refl, rw (==_refl r.kakao_id) refl, refl, gone),
  )
  | inr (x, g) ↦ elim (Bool-cases (is_blocked x.status)) [
    | inl b ↦ inl ((x, g, b), approve_blocked env id by r w x f g b)
    | inr b ↦ inr (
      (λ (y, f', c). ground (arith, g, b, f', c)),
      rw (approve_listed env id by r w x f g b) (x, refl, g, b, gone),
    )
  ]
]
  where
    same : r.id ≡ id
    same = let h = find-holds (is_request id) w.access_requests r f in ground (arith, h)

    gone : find (is_request id) (delete_where (is_request r.id) w.access_requests) ≡ none
    gone =
        ap (λ i. find (is_request id) (delete_where (is_request i) w.access_requests)) same
        ∙ find-delete_where (is_request id) w.access_requests
