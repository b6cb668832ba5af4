-- ===== src/System/Accounts/Linked.antt =====
-- The user of an entry (src/admin/admin.service.ts), as `enforceBlock` and `reactivate` look it up.
use intaektok_be.Prelude.{
  ◌≡◌, inl, inr, refl, Bool, none, some, Ident, ◌==◌, In, find-In, find-holds, arith, Bool-cases,
  Option-cases, ==_refl,
}
use intaektok_be.Prisma.{User, UserStatus, Whitelist}
use intaektok_be.World.{World}
use intaektok_be.Auth.Login.{find_kakao}
use intaektok_be.Admin.{with_status, linked_user}
use intaektok_be.System.Accounts.{touched, find-misses}
use intaektok_be.System.Accounts.Sound.{IsOf}

abbrev pub has_id : Ident → User → Bool
has_id i u = u.id == i

pub linked_is_of :
    (x : Whitelist) (w : World) (u : User)
    → linked_user x w ≡ some u
    → In u w.users × (x.kakao_id ≡ some u.kakao_id)
linked_is_of x w u h = elim (Option-cases x.kakao_id) [
  | inl e ↦ absurd (ground (arith, h, e))
  | inr (k, e) ↦
      let f : find_kakao k w ≡ some u = ground (arith, h, e) in
      let held = find-holds (λ (v : User). v.kakao_id == k) w.users u f in
      (find-In (λ (v : User). v.kakao_id == k) w.users u f, ground (arith, e, held))
]

pub linked_none :
    (x : Whitelist) (w : World) (u : User) → linked_user x w ≡ none → In u w.users → IsOf x u → ⊥
linked_none x w u h i (e, n) =
    let f : find_kakao u.kakao_id w ≡ none = ground (arith, h, e, n) in
    let miss = find-misses (λ (v : User). v.kakao_id == u.kakao_id) u w.users f i in
    ground (arith, miss, ==_refl u.kakao_id)

pub still_suspended :
    (q : User → Bool) (u : User)
    → u.status ≡ UserStatus.suspended
    → (touched q (with_status UserStatus.suspended) u).status ≡ UserStatus.suspended
still_suspended q u h = elim (Bool-cases (q u)) [ inl e ↦ rw e refl | inr e ↦ rw e h ]

pub touched_kakao :
    (q : User → Bool) (s : UserStatus) (u : User)
    → (touched q (with_status s) u).kakao_id ≡ u.kakao_id
touched_kakao q s u = elim (Bool-cases (q u)) [ inl e ↦ rw e refl | inr e ↦ rw e refl ]
