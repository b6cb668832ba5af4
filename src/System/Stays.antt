-- ===== src/System/Stays.antt =====
-- That a stored message stays, as what all calls keep: its row may be emptied, but it keeps its place.
use intaektok_be.Prelude.{
  ℕ, true, Bool, List, [], ◌∷◌, ◌==◌, map, select, update_where, if◌then◌else◌, In, leb, ==_refl,
  sym, ◌⊎◌, ◌≡◌, ap, ◌∙◌, Bool-cases, inl, inr,
}
use intaektok_be.Prisma.{Message}
use intaektok_be.World.{World}
use intaektok_be.Env.{Env}
use intaektok_be.Messages.Create.Frame.{Frame, create_message-Keeps}
use intaektok_be.Messages.Unsend.{unsent}
use intaektok_be.Messages.History.{history, of_room, order_desc, insert_desc}
use intaektok_be.System.Preserves.{Law}
use intaektok_be.System.Messages.{Holds, message_law}

-- A row is that of a message, in the same place of the same room.
abbrev pub IsSame : Message → Message → Type 0
IsSame m x = (x.id ≡ m.id) × (x.room_id ≡ m.room_id) × (x.sender_id ≡ m.sender_id) × (x.seq ≡ m.seq)

abbrev pub Stays : Message → List Message → Type 0
Stays m ms = (x : Message) × In x ms × IsSame m x

-- Other requests remove no message either.
abbrev pub OthersLeave : Env → Message → Type 0
OthersLeave env m =
    (left : ℕ) (w : World) → Stays m w.messages → Stays m (env.others left w).messages

module _ (p : Message → Bool) (now : ℕ) where
  abbrev after : Message → Message
  after x = if p x then unsent now x else x

  In-update :
      (x : Message) (ms : List Message) → In x ms → In (after x) (update_where p (unsent now) ms)
  In-update x [] i = i
  In-update x (y ∷ ys) (inl e) = inl (ap after e)
  In-update x (y ∷ ys) (inr i) = inr (In-update x ys i)

  after-IsSame : (m x : Message) → IsSame m x → IsSame m (after x)
  after-IsSame m x s = elim (Bool-cases (p x)) [ inl e ↦ rw e s | inr e ↦ rw e s ]

  update-Stays :
      (m : Message) (ms : List Message) → Stays m ms → Stays m (update_where p (unsent now) ms)
  update-Stays m ms (x, i, s) = (after x, In-update x ms i, after-IsSame m x s)

Stays-Frame : (env : Env) (m : Message) → OthersLeave env m → Frame env (Holds (Stays m))
Stays-Frame env m k = record {
  counter = λ w c h. h;
  message = λ w row (x, i, s). (x, inr i, s);
  rooms = λ w room at h. h;
  event = λ w e h. h;
  others = k;
}

pub Stays-Law : (env : Env) (m : Message) → OthersLeave env m → Law env (Holds (Stays m))
Stays-Law env m k = message_law env (Stays m) (record {
  create = λ p. record { at = create_message-Keeps env (Holds (Stays m)) (Stays-Frame env m k) p };
  unsend = λ id now ms h. update-Stays (λ (x : Message). x.id == id) now m ms h;
  others = k;
})

In-insert_desc : (x m : Message) (ms : List Message) → (x ≡ m) ⊎ In x ms → In x (insert_desc m ms)
In-insert_desc x m [] i = i
In-insert_desc x m (y ∷ ys) i = elim (Bool-cases (leb y.seq m.seq)) [
  | inl e ↦ rw e i
  | inr e ↦ rw e (elim i [
    | inl same ↦ inr (In-insert_desc x m ys (inl same))
    | inr (inl first) ↦ inl first
    | inr (inr j) ↦ inr (In-insert_desc x m ys (inr j))
  ])
]

In-order_desc : (x : Message) (ms : List Message) → In x ms → In x (order_desc ms)
In-order_desc x [] i = i
In-order_desc x (m ∷ ms) (inl e) = In-insert_desc x m (order_desc ms) (inl e)
In-order_desc x (m ∷ ms) (inr i) = In-insert_desc x m (order_desc ms) (inr (In-order_desc x ms i))

In-select :
    (p : Message → Bool) (x : Message) (ms : List Message)
    → In x ms
    → p x ≡ true
    → In x (select p ms)
In-select p x [] i h = i
In-select p x (m ∷ ms) (inl e) h = rw (sym (ap p e) ∙ h) (inl e)
In-select p x (m ∷ ms) (inr i) h = elim (Bool-cases (p m)) [
  | inl e ↦ rw e (inr (In-select p x ms i h))
  | inr e ↦ rw e (In-select p x ms i h)
]

-- A stored message is in the history of its room.
pub In-history : (x : Message) (w : World) → In x w.messages → In x (history x.room_id w)
unfolding history
In-history x w i =
    In-order_desc x (select (of_room x.room_id) w.messages)
      (In-select (of_room x.room_id) x w.messages i (==_refl x.room_id))

pub In-map : {A B : Type 0} (f : A → B) (x : A) (xs : List A) → In x xs → In (f x) (map f xs)
In-map f x [] i = i
In-map f x (y ∷ ys) (inl e) = inl (ap f e)
In-map f x (y ∷ ys) (inr i) = inr (In-map f x ys i)
