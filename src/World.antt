-- ===== src/World.antt =====
-- The state behind the services: the database's tables, the keys in Redis, the events emitted so
-- far, and the clock. A service call is a `Call`: it returns or throws, and what it wrote before it
-- threw stays written.
pub mod Keeps
use intaektok_be.Prelude.{ℕ, Bool, true, false, Option, none, some, List, ◌∷◌, Ident}
use intaektok_be.Prisma.{
  User, Profile, Whitelist, AccessRequest, Room, RoomMember, Message, Media, PushToken,
}
use intaektok_be.Common.Errors.{Error}
use intaektok_be.Common.Events.{Event}

pub record World : Type 0 where
  -- the tables
  pub users : List User
  pub profiles : List Profile
  pub whitelist : List Whitelist
  pub access_requests : List AccessRequest
  pub rooms : List Room
  pub members : List RoomMember
  pub messages : List Message
  pub media : List Media
  pub push_tokens : List PushToken
  -- Redis: `room:{id}:seq`, `refresh:{user}:{jti}` and `presence:online:{user}`
  pub counter : Ident → Option ℕ
  pub refresh : Ident → Ident → Bool
  pub sockets : Ident → List Ident
  -- the events emitted, newest first; the time; how many ids the database has generated
  pub events : List Event
  pub now : ℕ
  pub issued : ℕ

pub data Result (A : Type 0) : Type 0 where
  ok : A → Result A
  err : Error → Result A

abbrev pub Call : Type 0 → Type 0
Call A = World → Result A × World

module _ {A : Type 0} where
  abbrev pub pure : A → Call A
  pure a w = (ok a, w)

  abbrev pub throw : Error → Call A
  throw e w = (err e, w)

  abbrev pub gets : (World → A) → Call A
  gets f w = (ok (f w), w)

  -- `if (!found) throw e`
  abbrev pub or_throw : Option A → Error → Call A
  or_throw none e = throw e
  or_throw (some a) _ = pure a

infixl 5 ◌>>=◌ ◌>>◌
abbrev pub ◌>>=◌ : {A B : Type 0} → Call A → (A → Call B) → Call B
◌>>=◌ m f w = let (r, w') = m w in elim r [ ok a ↦ f a w' | err e ↦ throw e w' ]

abbrev pub ◌>>◌ : {A B : Type 0} → Call A → Call B → Call B
m >> k = m >>= λ _. k

abbrev pub throw_if : Bool → Error → Call (Unit {0})
throw_if true e = throw e
throw_if false _ = pure tt

abbrev pub when : Bool → Call (Unit {0}) → Call (Unit {0})
when true m = m
when false _ = pure tt

abbrev pub modify : (World → World) → Call (Unit {0})
modify f w = (ok tt, f w)

abbrev pub emit : Event → Call (Unit {0})
emit e w = (ok tt, record w { events = e ∷ w.events })
