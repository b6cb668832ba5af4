-- ===== src/Realtime/Connection.antt =====
-- src/realtime/realtime.gateway.ts: the life of a connection, its authentication, and the presence
-- that it makes known.
pub mod Lifecycle
use intaektok_be.Prelude.{
  ℕ, Bool, true, false, not, Option, none, some, List, [], ◌∷◌, ◌++◌, Ident, Text, ◌==◌,
  if◌then◌else◌, codes, text_eq, lower, split_on,
}
use intaektok_be.World.{World, Result, ok, err}
use intaektok_be.Auth.Jwt.{Jwt, TokenPayload, is_access}
use intaektok_be.Auth.Session.{find_user, is_inactive}
use intaektok_be.Presence.{add_connection, remove_connection}
use intaektok_be.Realtime.Socket.{Client, Packet, Send, emit_to_users, rooms_of, co_member_ids}

abbrev usable : TokenPayload → World → Option Ident
usable p w =
    if not (is_access p.kind)
    then none
    else if is_inactive (find_user p.sub w)
    then none
    else some p.sub

abbrev checked : Option TokenPayload → World → Option Ident
checked none w = none
checked (some p) w = usable p w

abbrev bearer_of : List Text → Option Text
bearer_of (scheme ∷ value ∷ _) =
    if text_eq (lower scheme) (codes "bearer") then some value else none
bearer_of _ = none

unfoldable pub bearer_from_header : Option Text → Option Text
bearer_from_header none = none
bearer_from_header (some []) = none
bearer_from_header (some (c ∷ cs)) = bearer_of (split_on 32 (c ∷ cs))

-- `handshake.auth.token`, else the bearer of `handshake.headers.authorization`; an empty one is none.
abbrev token_of : Option Text → Option Text → Option Text
token_of none header = bearer_from_header header
token_of (some t) header = some t

abbrev verified : Jwt → Option Text → Option TokenPayload
verified jwt none = none
verified jwt (some []) = none
verified jwt (some (c ∷ cs)) = jwt.verify_access (c ∷ cs)

-- The user of the handshake; `none` where the gateway throws.
unfoldable pub authenticate : Jwt → Option Text → Option Text → World → Option Ident
authenticate jwt auth header w = checked (verified jwt (token_of auth header)) w

abbrev flag : Result Bool → Bool
flag (ok b) = b
flag (err _) = false

abbrev became_online : Result Bool → Ident → World → List Send
became_online r user w =
    if flag r then emit_to_users (co_member_ids user w) (Packet.presence_online user) else []

abbrev became_offline : Result Bool → Ident → World → List Send
became_offline r user w =
    if flag r then emit_to_users (co_member_ids user w) (Packet.presence_offline user w.now) else []

abbrev welcome : Client → Ident → World → Client
welcome client user w = record client {
  user_id = some user;
  joined = rooms_of user w ++ client.joined;
}

abbrev accept_or_refuse : Client → Option Ident → World → Client × List Send × World
accept_or_refuse client none w =
    (record client { connected = false }, Send.refuse client.id ∷ [], w)
accept_or_refuse client (some user) w =
    let (r, w') = add_connection user client.id w in
    (welcome client user w, became_online r user w', w')

unfoldable pub handle_connection :
    Jwt → Client → Option Text → Option Text → World → Client × List Send × World
handle_connection jwt client auth header w =
    accept_or_refuse client (authenticate jwt auth header w) w

abbrev pub leave_of : Client → Option Ident → World → List Send × World
leave_of client none w = ([], w)
leave_of client (some user) w =
    let (r, w') = remove_connection user client.id w in (became_offline r user w', w')

unfoldable pub handle_disconnect : Client → World → List Send × World
handle_disconnect client w = leave_of client client.user_id w
