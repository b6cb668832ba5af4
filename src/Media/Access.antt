-- ===== src/Media/Access.antt =====
-- On `getMedia` and its access policy (src/media/media.service.ts).
use intaektok_be.Prelude.{
  ℕ, Bool, true, not, ◌&&◌, ◌||◌, Option, none, some, List, Ident, ◌==◌, opt_eq, find, is_some, ◌≡◌,
  refl, ◌↔◌, ◌⊎◌, inl, inr, arith, Bool-cases, In, find_iff, both, either,
}
use intaektok_be.Prisma.{Media, Message, Room, RoomMember, Profile}
use intaektok_be.World.{World, ok}
use intaektok_be.Env.{Env}
use intaektok_be.Messages.Checks.{find_media, in_room}
use intaektok_be.Media.{MediaView, get_media, can_access, belongs_to, shared_in, avatar_of_room}

-- The user is in the room and has not left it.
abbrev pub Belongs : Ident → Ident → World → Type 0
Belongs room user w =
    (m : RoomMember) × In m w.members × (m.room_id ≡ room) × (m.left_at ≡ none) × (m.user_id ≡ user)

-- What makes a media file visible to a user: having uploaded it, a message that carries it in one of the
-- user's rooms, its being a profile's picture, or its being the picture of one of the user's rooms.
abbrev pub Visible : Media → Ident → World → Type 0
Visible m user w =
    (m.uploader_id ≡ user)
    ⊎ ((x : Message) × In x w.messages × (x.media_id ≡ some m.id) × Belongs x.room_id user w)
    ⊎ ((p : Profile) × In p w.profiles × (p.avatar_media_id ≡ some m.id))
    ⊎ ((r : Room) × In r w.rooms × (r.avatar_media_id ≡ some m.id) × Belongs r.id user w)

opt_eq-some : (o : Option ℕ) (i : ℕ) → (opt_eq o (some i) ≡ true) ↔ (o ≡ some i)
opt_eq-some none i = ((λ e. cc), λ e. cc)
opt_eq-some (some j) i = ground arith

unset : (o : Option ℕ) → ((not (is_some o)) ≡ true) ↔ (o ≡ none)
unset none = ((λ e. refl), λ e. refl)
unset (some i) = ((λ e. cc), λ e. cc)

pub belongs_to_iff :
    (room user : Ident) (w : World) → (belongs_to room user w ≡ true) ↔ Belongs room user w
unfolding belongs_to
belongs_to_iff room user w = (
  (λ h.
      let (m, i, e) = (find_iff (λ r. in_room room r && r.user_id == user) w.members).0 h in
      let (l, u) = (both (in_room room m) (m.user_id == user)).0 e in
      let (r, n) = (both (m.room_id == room) (not (is_some m.left_at))).0 l in
      (m, i, ground (arith, r), (unset m.left_at).0 n, ground (arith, u))),
  λ (m, i, r, n, u).
      (find_iff (λ r'. in_room room r' && r'.user_id == user) w.members).1
        (m, i, ground (arith, r, n, u)),
)

-- A row that carries the file and passes a further test.
carried_iff :
    {A : Type 0} (of : A → Option Ident) (c : A → Bool) (C : A → Type 0) (i : Ident) (xs : List A)
    → ((x : A) → (c x ≡ true) ↔ C x)
    → (is_some (find (λ x. opt_eq (of x) (some i) && c x) xs) ≡ true)
      ↔ ((x : A) × In x xs × (of x ≡ some i) × C x)
carried_iff of c C i xs k = (
  (λ h.
      let (x, j, e) = (find_iff (λ y. opt_eq (of y) (some i) && c y) xs).0 h in
      let (a, b) = (both (opt_eq (of x) (some i)) (c x)).0 e in
      (x, j, (opt_eq-some (of x) i).0 a, (k x).0 b)),
  λ (x, j, a, b).
      (find_iff (λ y. opt_eq (of y) (some i) && c y) xs).1
        (x, j, (both (opt_eq (of x) (some i)) (c x)).1 ((opt_eq-some (of x) i).1 a, (k x).1 b)),
)

pictured_iff :
    (i : Ident) (ps : List Profile)
    → (is_some (find (λ (p : Profile). opt_eq p.avatar_media_id (some i)) ps) ≡ true)
      ↔ ((p : Profile) × In p ps × (p.avatar_media_id ≡ some i))
pictured_iff i ps = (
  (λ h.
      let (p, j, e) = (find_iff (λ (q : Profile). opt_eq q.avatar_media_id (some i)) ps).0 h in
      (p, j, (opt_eq-some p.avatar_media_id i).0 e)),
  λ (p, j, e).
      (find_iff (λ (q : Profile). opt_eq q.avatar_media_id (some i)) ps).1
        (p, j, (opt_eq-some p.avatar_media_id i).1 e),
)

either_iff {ℓ} :
    {P Q : Type ℓ} (a b : Bool) → (a ≡ true) ↔ P → (b ≡ true) ↔ Q → ((a || b) ≡ true) ↔ (P ⊎ Q)
either_iff a b p q = (
  (λ h. elim ((either a b).0 h) [ inl e ↦ inl (p.0 e) | inr e ↦ inr (q.0 e) ]),
  λ h. elim h [ inl e ↦ (either a b).1 (inl (p.1 e)) | inr e ↦ (either a b).1 (inr (q.1 e)) ],
)

module _ (m : Media) (user : Ident) (w : World) where
  shared : Bool
  shared = is_some (find (shared_in m.id user w) w.messages)

  pictured : Bool
  pictured = is_some (find (λ (p : Profile). opt_eq p.avatar_media_id (some m.id)) w.profiles)

  room_pictured : Bool
  room_pictured = is_some (find (avatar_of_room m.id user w) w.rooms)

  shared_iff :
      (shared ≡ true)
      ↔ ((x : Message) × In x w.messages × (x.media_id ≡ some m.id) × Belongs x.room_id user w)
  unfolding shared
  shared_iff =
      carried_iff (λ (x : Message). x.media_id) (λ (x : Message). belongs_to x.room_id user w)
        (λ (x : Message). Belongs x.room_id user w) m.id w.messages
        (λ x. belongs_to_iff x.room_id user w)

  room_pictured_iff :
      (room_pictured ≡ true)
      ↔ ((r : Room) × In r w.rooms × (r.avatar_media_id ≡ some m.id) × Belongs r.id user w)
  unfolding room_pictured
  room_pictured_iff =
      carried_iff (λ (x : Room). x.avatar_media_id) (λ (x : Room). belongs_to x.id user w)
        (λ (x : Room). Belongs x.id user w) m.id w.rooms (λ x. belongs_to_iff x.id user w)

  uploaded_iff : ((m.uploader_id == user) ≡ true) ↔ (m.uploader_id ≡ user)
  uploaded_iff = ground arith

  can_access_iff : (can_access m user w ≡ true) ↔ Visible m user w
  unfolding can_access shared pictured room_pictured
  can_access_iff =
      either_iff (m.uploader_id == user) (shared || (pictured || room_pictured)) uploaded_iff (
        either_iff shared (pictured || room_pictured) shared_iff
          (either_iff pictured room_pictured (pictured_iff m.id w.profiles) room_pictured_iff))

module _ (env : Env) (id user : Ident) (m : Media) (w : World) where
  -- The URL of a stored file is handed out exactly to a user who has uploaded it, who is in a room with
  -- a message that carries it or with it as its picture, or if it is the picture of a profile; and the
  -- state stays as it was.
  pub get_media_iff :
      find_media (some id) w ≡ some m
      → (((v : MediaView) × ((get_media env id user w).0 ≡ ok v)) ↔ Visible m user w)
        × ((get_media env id user w).1 ≡ w)
  unfolding get_media
  get_media_iff found = elim (Bool-cases (can_access m user w)) [
    | inl e ↦ rw (found, e) (((λ h. (can_access_iff m user w).0 e), λ h. (_, refl)), refl)
    | inr e ↦
        rw (found, e)
          (
            ((λ (v, h). cc), λ h. let t = (can_access_iff m user w).1 h in ground (arith, e, t)),
            refl,
          )
  ]
