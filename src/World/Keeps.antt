-- ===== src/World/Keeps.antt =====
-- What a call keeps: a property of the state that holds before it holds after it, whether it returns
-- or throws.
use intaektok_be.Prelude.{Bool, true, false, Option, none, some, ◌≡◌, refl, ap}
use intaektok_be.Common.Errors.{Error}
use intaektok_be.World.{World, Result, ok, err, Call, pure, or_throw, ◌>>=◌, throw_if, when}

abbrev pub Keeps {ℓ} : {A : Type 0} → (World → Type ℓ) → Call A → Type ℓ
Keeps P m = (w : World) → P w → P (m w).1

module _ {ℓ} {A B : Type 0} (P : World → Type ℓ) where
  returned :
      (f : A → Call B) (r : Result A) (v : World)
      → ((a : A) → Keeps P (f a))
      → P v
      → P (((λ _. (r, v)) >>= f) v).1
  returned f (ok a) v k h = k a v h
  returned f (err e) v k h = h

  pub bind-Keeps :
      (m : Call A) (f : A → Call B) → Keeps P m → ((a : A) → Keeps P (f a)) → Keeps P (m >>= f)
  bind-Keeps m f km kf w h = returned f (m w).0 (m w).1 kf (km w h)

module _ {ℓ} (P : World → Type ℓ) where
  pub when-Keeps : (b : Bool) (m : Call (Unit {0})) → Keeps P m → Keeps P (when b m)
  when-Keeps true m k w h = k w h
  when-Keeps false m k w h = h

  pub throw_if-Keeps : (b : Bool) (e : Error) → Keeps P (throw_if b e)
  throw_if-Keeps true e w h = h
  throw_if-Keeps false e w h = h

  pub or_throw-Keeps : {A : Type 0} (o : Option A) (e : Error) → Keeps P (or_throw o e)
  or_throw-Keeps none e w h = h
  or_throw-Keeps (some a) e w h = h

module _ {A B : Type 0} (m : Call A) (f : A → Call B) (w v : World) where
  -- A chain whose first part returns goes on with what it returned.
  pub bind_ok : (a : A) → m w ≡ (ok a, v) → (m >>= f) w ≡ f a v
  bind_ok a e = ap (λ r. ((λ _. r) >>= f) w) e

  pub bind_err : (e : Error) → m w ≡ (err e, v) → (m >>= f) w ≡ (err e, v)
  bind_err e h = ap (λ r. ((λ _. r) >>= f) w) h

-- A property of a call in a chain, from one of its first part.
module _ {ℓ κ} {A B : Type 0} (R : Result A × World → Type ℓ) (Q : Result B × World → Type κ) where
  ended :
      (f : A → Call B) (r : Result A) (v : World)
      → R (r, v)
      → ((a : A) (v' : World) → R (ok a, v') → Q (f a v'))
      → ((e : Error) (v' : World) → R (err e, v') → Q (err e, v'))
      → Q (((λ _. (r, v)) >>= f) v)
  ended f (ok a) v h returns throws = returns a v h
  ended f (err e) v h returns throws = throws e v h

  pub bind_rule :
      (m : Call A) (f : A → Call B) (w : World)
      → R (m w)
      → ((a : A) (v : World) → R (ok a, v) → Q (f a v))
      → ((e : Error) (v : World) → R (err e, v) → Q (err e, v))
      → Q ((m >>= f) w)
  bind_rule m f w h returns throws = ended f (m w).0 (m w).1 h returns throws

module _ {A B : Type 0} (f : A → B) where
  left_as : (r : Result A) (v : World) → (((λ _. (r, v)) >>= λ a. pure (f a)) v).1 ≡ v
  left_as (ok a) v = refl
  left_as (err e) v = refl

  -- To map the result of a call changes nothing else.
  pub map_world : (m : Call A) (w : World) → ((m >>= λ a. pure (f a)) w).1 ≡ (m w).1
  map_world m w = left_as (m w).0 (m w).1
