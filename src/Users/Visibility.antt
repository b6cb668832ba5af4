-- ===== src/Users/Visibility.antt =====
-- On `shareRoom` (src/users/users.service.ts) and `coMemberIds` (src/realtime/realtime.gateway.ts).
use intaektok_be.Prelude.{
  ℕ, true, false, not, ◌&&◌, Option, none, some, List, [], ◌∷◌, map, Ident, ◌==◌, find, select,
  contains, is_some, ◌≡◌, refl, ap, ◌∙◌, sym, ◌↔◌, arith, find_iff, both, Bool_ext,
  contains-map-select, contains-dedup,
}
use intaektok_be.Prisma.{RoomMember}
use intaektok_be.World.{World}
use intaektok_be.Media.{belongs_to}
use intaektok_be.Media.Access.{Belongs, belongs_to_iff}
use intaektok_be.Users.{share_room, shares}
use intaektok_be.Realtime.Socket.{
  co_member_ids, co_members_in, rooms_of, is_co_member, is_active_of,
}

-- A room that both users are in.
abbrev pub InOneRoom : Ident → Ident → World → Type 0
InOneRoom a b w = (r : Ident) × Belongs r a w × Belongs r b w

unset : (o : Option ℕ) → (not (is_some o) ≡ true) ↔ (o ≡ none)
unset none = ((λ e. refl), λ e. refl)
unset (some i) = ((λ e. cc), λ e. cc)

is_active_of_iff :
    (a : Ident) (m : RoomMember)
    → (is_active_of a m ≡ true) ↔ ((m.left_at ≡ none) × (m.user_id ≡ a))
is_active_of_iff a m = (
  (λ h.
      let (u, l) = (both (m.user_id == a) (not (is_some m.left_at))).0 h in
      ((unset m.left_at).0 l, ground (arith, u))),
  λ (l, u). ground (arith, l, u),
)

shares_iff :
    (a b : Ident) (w : World) → (is_some (find (shares a b w) w.members) ≡ true) ↔ InOneRoom a b w
shares_iff a b w = (
  (λ h.
      let (m, i, e) = (find_iff (shares a b w) w.members).0 h in
      let (act, bel) = (both (is_active_of a m) (belongs_to m.room_id b w)).0 e in
      let (l, u) = (is_active_of_iff a m).0 act in
      (m.room_id, (m, i, refl, l, u), (belongs_to_iff m.room_id b w).0 bel)),
  λ (r, (m, i, same, l, u), bel). (find_iff (shares a b w) w.members).1 (
    m,
    i,
    (both (is_active_of a m) (belongs_to m.room_id b w)).1 (
      (is_active_of_iff a m).1 (l, u),
      ap (λ k. belongs_to k b w) same ∙ (belongs_to_iff r b w).1 bel,
    ),
  ),
)

-- The rooms of a user are those that the user belongs to.
rooms_of_iff : (a r : Ident) (w : World) → (contains (rooms_of a w) r ≡ true) ↔ Belongs r a w
rooms_of_iff a r w =
    rw (contains-map-select (λ (m : RoomMember). m.room_id) (is_active_of a) w.members r) (
      (λ h.
          let (m, i, e) = (find_iff (λ m. is_active_of a m && m.room_id == r) w.members).0 h in
          let (act, s) = (both (is_active_of a m) (m.room_id == r)).0 e in
          let (l, u) = (is_active_of_iff a m).0 act in (m, i, ground (arith, s), l, u)),
      λ (m, i, s, l, u). (find_iff (λ m. is_active_of a m && m.room_id == r) w.members).1 (
        m,
        i,
        (both (is_active_of a m) (m.room_id == r)).1
            ((is_active_of_iff a m).1 (l, u), ground (arith, s)),
      ),
    )

none_listed :
    (user b : Ident) (ms : List RoomMember)
    → is_some (find (λ m. is_co_member [] user m && m.user_id == b) ms) ≡ false
none_listed user b [] = refl
none_listed user b (m ∷ ms) = none_listed user b ms

contains-co_members_in :
    (user b : Ident) (rs : List Ident) (w : World)
    → contains (co_members_in user rs w) b
      ≡ is_some (find (λ m. is_co_member rs user m && m.user_id == b) w.members)
contains-co_members_in user b [] w = sym (none_listed user b w.members)
contains-co_members_in user b (r ∷ rs) w =
    contains-dedup
      (map (λ (m : RoomMember). m.user_id) (select (is_co_member (r ∷ rs) user) w.members)) b
    ∙ contains-map-select (λ (m : RoomMember). m.user_id) (is_co_member (r ∷ rs) user) w.members b

is_co_member_iff :
    (rs : List Ident) (a b : Ident) (m : RoomMember)
    → (a == b) ≡ false
    → ((is_co_member rs a m && m.user_id == b) ≡ true)
      ↔ ((contains rs m.room_id ≡ true) × (m.left_at ≡ none) × (m.user_id ≡ b))
is_co_member_iff rs a b m ne = (
  (λ h.
      let (c, u) = (both (is_co_member rs a m) (m.user_id == b)).0 h in
      let (d, _) =
        (both (contains rs m.room_id && not (is_some m.left_at)) (not (m.user_id == a))).0 c in
      let (k, l) = (both (contains rs m.room_id) (not (is_some m.left_at))).0 d in
      (k, (unset m.left_at).0 l, ground (arith, u))),
  λ (k, l, u). ground (arith, k, l, u, ne),
)

co_member_iff :
    (a b : Ident) (w : World)
    → (a == b) ≡ false
    → (is_some (find (λ m. is_co_member (rooms_of a w) a m && m.user_id == b) w.members) ≡ true)
      ↔ InOneRoom a b w
co_member_iff a b w ne = (
  (λ h.
      let (m, i, e) =
        (find_iff (λ m. is_co_member (rooms_of a w) a m && m.user_id == b) w.members).0 h in
      let (k, l, u) = (is_co_member_iff (rooms_of a w) a b m ne).0 e in
      (m.room_id, (rooms_of_iff a m.room_id w).0 k, (m, i, refl, l, u))),
  λ (r, bel, (m, i, same, l, u)).
      (find_iff (λ m. is_co_member (rooms_of a w) a m && m.user_id == b) w.members).1 (
        m,
        i,
        (is_co_member_iff (rooms_of a w) a b m ne).1
            (ap (contains (rooms_of a w)) same ∙ (rooms_of_iff a r w).1 bel, l, u),
      ),
)

-- Of two different users, the gateway tells the second of the first one's presence exactly if the first
-- may see the second one's profile, that is if they are in a room that neither has left.
pub co_member_ids_iff :
    (a b : Ident) (w : World)
    → (a == b) ≡ false
    → (contains (co_member_ids a w) b ≡ share_room a b w)
      × ((share_room a b w ≡ true) ↔ InOneRoom a b w)
unfolding co_member_ids share_room
co_member_ids_iff a b w ne = rw ne (
  contains-co_members_in a b (rooms_of a w) w
      ∙ Bool_ext (is_some (find (λ m. is_co_member (rooms_of a w) a m && m.user_id == b) w.members))
          (is_some (find (shares a b w) w.members))
          (
            (λ h. (shares_iff a b w).1 ((co_member_iff a b w ne).0 h)),
            λ h. (co_member_iff a b w ne).1 ((shares_iff a b w).0 h),
          ),
  shares_iff a b w,
)
