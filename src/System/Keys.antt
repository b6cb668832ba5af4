-- ===== src/System/Keys.antt =====
-- The unique keys of messages as what all calls keep.
use intaektok_be.Prelude.{
  ℕ, Bool, Option, none, some, List, [], ◌∷◌, Ident, ◌==◌, find, update_where, ◌≡◌, refl, arith,
  Bool-cases, inl, inr,
}
use intaektok_be.Prisma.{Message}
use intaektok_be.Env.{Env}
use intaektok_be.Messages.Seq.{has_seq}
use intaektok_be.Messages.Persist.{has_client_id}
use intaektok_be.Messages.Persist.Unique.{UniqueKeys, OthersKeep}
use intaektok_be.Messages.Create.Unique.{create_message-UniqueKeys}
use intaektok_be.Messages.Unsend.{unsent}
use intaektok_be.System.Preserves.{Law}
use intaektok_be.System.Messages.{Holds, message_law}

module _ (p : Message → Bool) (now : ℕ) where
  -- To unsend messages changes the result of no test that looks at other fields.
  find-unsent :
      (q : Message → Bool)
      → ((m : Message) → q (unsent now m) ≡ q m)
      → (ms : List Message) → find q ms ≡ none
      → find q (update_where p (unsent now) ms) ≡ none
  find-unsent q same [] h = refl
  find-unsent q same (m ∷ ms) h = elim (Bool-cases (p m)) [
    | inl e ↦ ground (arith, e, same m, h, find-unsent q same ms (ground (arith, h)))
    | inr e ↦ ground (arith, e, h, find-unsent q same ms (ground (arith, h)))
  ]

  has_client_id-unsent :
      (room : Ident) (c : Option Ident) (m : Message)
      → has_client_id room c (unsent now m) ≡ has_client_id room c m
  has_client_id-unsent room none m = refl
  has_client_id-unsent room (some c) m = refl

  unsent-UniqueKeys :
      (ms : List Message) → UniqueKeys ms → UniqueKeys (update_where p (unsent now) ms)
  unsent-UniqueKeys [] u = tt
  unsent-UniqueKeys (m ∷ ms) (s, c, u) = elim (Bool-cases (p m)) [
    | inl e ↦ rw e (
      find-unsent (has_seq m.room_id m.seq) (λ _. refl) ms s,
      find-unsent (has_client_id m.room_id m.client_message_id) (has_client_id-unsent _ _) ms c,
      unsent-UniqueKeys ms u,
    )
    | inr e ↦ rw e (
      find-unsent (has_seq m.room_id m.seq) (λ _. refl) ms s,
      find-unsent (has_client_id m.room_id m.client_message_id) (has_client_id-unsent _ _) ms c,
      unsent-UniqueKeys ms u,
    )
  ]

pub UniqueKeys-Law : (env : Env) → OthersKeep env → Law env (Holds UniqueKeys)
UniqueKeys-Law env k = message_law env UniqueKeys (record {
  create = λ p. record { at = λ w h. create_message-UniqueKeys env p w k h };
  unsend = λ id now ms h. unsent-UniqueKeys (λ (m : Message). m.id == id) now ms h;
  others = k;
})
