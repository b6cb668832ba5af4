-- ===== src/Presence/Online.antt =====
-- On `addConnection` and `removeConnection` of src/presence/presence.service.ts.
use intaektok_be.Prelude.{
  Bool, true, false, not, List, [], ◌∷◌, Ident, contains, ◌≡◌, refl, ap, arith,
}
use intaektok_be.World.{World, Result, ok}
use intaektok_be.Presence.{add_connection, remove_connection, is_online, srem}

-- What the gateway broadcasts when a call reports a change.
pub data Presence : Type 0 where
  online offline : Presence

abbrev pub broadcast : Result Bool → Presence → List Presence → List Presence
broadcast (ok true) p said = p ∷ said
broadcast _ p said = said

-- The states that connections and disconnections of a user's sockets lead to, from one without any,
-- with the sockets that are open and what has been broadcast, the latest first.
pub data Reached (user : Ident) : World → List Ident → List Presence → Type 0 where
  start : (w : World) → w.sockets user ≡ [] → Reached user w [] []
  connected :
      (w : World) (live : List Ident) (said : List Presence) (s : Ident)
      → Reached user w live said
      → contains live s ≡ false
      → Reached user
          (add_connection user s w).1
          (s ∷ live)
          (broadcast (add_connection user s w).0 Presence.online said)
  disconnected :
      (w : World) (live : List Ident) (said : List Presence) (s : Ident)
      → Reached user w live said
      → contains live s ≡ true
      → Reached user
          (remove_connection user s w).1
          (srem s live)
          (broadcast (remove_connection user s w).0 Presence.offline said)

-- Online and offline in turn, beginning with online, the last of them as given.
abbrev pub Alternates : List Presence → Bool → Type 0
Alternates [] b = b ≡ false
Alternates (online ∷ said) b = (b ≡ true) × Alternates said false
Alternates (offline ∷ said) b = (b ≡ false) × Alternates said true

abbrev pub is_any : List Ident → Bool
is_any [] = false
is_any (_ ∷ _) = true

add_connection_lem :
    (user s : Ident) (w : World) (live : List Ident)
    → w.sockets user ≡ live
    → contains live s ≡ false
    → ((add_connection user s w).0 ≡ ok (not (is_any live)))
      × (((add_connection user s w).1).sockets user ≡ s ∷ live)
unfolding add_connection
add_connection_lem user s w [] e new = ground (arith, e, new)
add_connection_lem user s w (o ∷ os) e new = ground (arith, e, new)

remove_connection_lem :
    (user s : Ident) (w : World) (live : List Ident)
    → w.sockets user ≡ live
    → ((remove_connection user s w).0 ≡ ok (not (is_any (srem s live))))
      × (((remove_connection user s w).1).sockets user ≡ srem s live)
unfolding remove_connection
remove_connection_lem user s w live e = go (srem s live) (ap (srem s) e)
  where
    go :
        (l : List Ident)
        → srem s (w.sockets user) ≡ l
        → ((remove_connection user s w).0 ≡ ok (not (is_any l)))
          × (((remove_connection user s w).1).sockets user ≡ l)
    go [] f = ground (arith, f)
    go (i ∷ is) f = ground (arith, f)

alternate_on :
    (b : Bool) (said : List Presence)
    → Alternates said b
    → Alternates (broadcast (ok (not b)) Presence.online said) true
alternate_on true said h = h
alternate_on false said h = (refl, h)

alternate_off :
    (b : Bool) (said : List Presence)
    → Alternates said true
    → Alternates (broadcast (ok (not b)) Presence.offline said) b
alternate_off true said h = h
alternate_off false said h = (refl, h)

any_of_contains : (live : List Ident) (s : Ident) → contains live s ≡ true → is_any live ≡ true
any_of_contains [] s h = h
any_of_contains (o ∷ os) s h = refl

-- In every state that connections of new sockets and disconnections of open ones lead to, from one
-- without sockets, the keys hold exactly the open sockets, the user is online just when one is open,
-- and what was broadcast is online and offline in turn, the last of them what the user is now.
pub presence-Alternates :
    (user : Ident) (w : World) (live : List Ident) (said : List Presence)
    → Reached user w live said
    → (w.sockets user ≡ live) × (is_online user w ≡ is_any live) × Alternates said (is_any live)
presence-Alternates user w live said r = let (e, a) = follow w live said r in (e, shown w live e, a)
  where
    shown : (v : World) (is : List Ident) → v.sockets user ≡ is → is_online user v ≡ is_any is
    shown v [] e = ground (arith, e)
    shown v (i ∷ is) e = ground (arith, e)

    follow :
        (v : World) (is : List Ident) (ps : List Presence)
        → Reached user v is ps
        → (v.sockets user ≡ is) × Alternates ps (is_any is)
    follow v is ps (start v' e) = (e, refl)
    follow v is ps (connected v' os qs s r' new) =
        let (e, a) = follow v' os qs r' in
        let (f, g) = add_connection_lem user s v' os e new in
        (g, rw f (alternate_on (is_any os) qs a))
    follow v is ps (disconnected v' os qs s r' old) =
        let (e, a) = follow v' os qs r' in
        let (f, g) = remove_connection_lem user s v' os e in
        (g, rw f (alternate_off (is_any (srem s os)) qs (rw (any_of_contains os s old) at a)))
