-- ===== src/Lib.antt =====
-- The chat server of this repository: a NestJS application over PostgreSQL (Prisma) and Redis, with
-- REST controllers, a Socket.IO gateway and push notifications.
--
-- The parts and their files.
--   Prisma: the tables of prisma/schema.prisma, a record to a model.
--   Common: the errors (src/common/errors.ts), the response to each (src/common/filters), the domain
--     events and the shapes that are handed out (src/common/events.ts, src/rooms/rooms.service.ts), and
--     what the lists by time share.
--   World: the state behind all services: the tables, the keys in Redis, the events emitted, the clock
--     and how many ids the database has issued. A service call is a `Call`, a function from a state to
--     its result, or what it throws, and the state that it leaves.
--   Config: src/config. Config itself is configuration.ts, Validation env.validation.ts, Startup what
--     src/main.ts makes of the configuration.
--   Env: what the services read of the configuration, and what they call.
--   Redis: the helpers of src/redis/redis.service.ts, on the keys that the services use.
--   Messages: src/messages/messages.service.ts. Seq is `nextSeq` and `resyncSeq`, Checks the checks of
--     `createMessage`, Persist `persistWithSeq`, Create `createMessage` and `createSystemMessage`, Read
--     `markRead` and `countUnread`, Unsend `softDelete`, History `listMessages`; Preview and
--     SystemMessage are src/messages/preview.ts and src/messages/system-message.ts.
--   Rooms: src/rooms/rooms.service.ts. View is `getRoomView` and `emitLifecycle`, Create `createRoom`,
--     Manage `updateRoom`, `addMembers` and `updateMemberRole`, Leave `removeMember`, Listing
--     `listRooms`; Members has the keys of the rows and what an owned room is.
--   Media: src/media/media.service.ts. Storage is src/media/storage.service.ts, which fills the URLs of
--     Env.
--   Auth: Jwt, Session and Login are src/auth/auth.service.ts (tokens, rotation, `kakaoLogin`), Me its
--     `me`, Kakao src/auth/kakao.service.ts, Guards src/common/guards and src/auth/strategies.
--   Admin: src/admin/admin.service.ts. Profile: src/profile/profile.service.ts. Users:
--     src/users/users.service.ts.
--   Presence: src/presence/presence.service.ts. Heartbeat is the time to live of its keys under the
--     timers of the gateway's connections.
--   Push: src/push/push.service.ts. Fcm is src/push/fcm.service.ts.
--   Api: the controllers, src/**/*.controller.ts. Rooms, Messages, Accounts (auth, profile, push),
--     Directory (users, media), Whitelist (admin) and Health have the handlers; Routes has a constructor
--     for each route, its guards and its status, and `respond`, which runs the guards, the handler and
--     the exception filter.
--   Realtime: src/realtime/realtime.gateway.ts. Socket has what is sent, Handlers the requests of
--     sockets and the domain events, Connection the life of a connection.
--   System: the whole server. Run is its runs, steps of which are requests, messages of sockets, the
--     delivery of events, the start, and the passing of time; Requests shows that a request keeps what
--     the calls that write messages, users or the whitelist keep, by Preserves and Quiet, which go through
--     all services; Keys, Stays and Accounts are such invariants, Sent is where an accepted message is
--     stored.
--   Tests: a small state on which each theorem is tried.
--
-- How the parts interact. Services call each other as in the code and share the state; they emit
-- events, which the gateway and the push service turn into sends. A request of the REST API runs the
-- guards of its route, in the order of their decorators, and then its handler, which calls a service. A
-- name is that of the code, in snake case; a helper models a part of the function named beside it.
--
-- What is chosen.
--   An id is a natural number, with 0 for the empty string, since the program only compares ids and
--     tests them for emptiness; a text whose characters matter is the list of its UTF-16 code units. A
--     time is a number of milliseconds. A sequence number is a natural number; the program reads it
--     from a `BigInt` as a JavaScript number and keeps it far below 2^53.
--   A table is the list of its rows, newest first. The unique constraints that the code relies on are
--     checked where a row is inserted; foreign keys are not.
--   A call runs to its end, except where the code is written for a race: while the insert of a message
--     or of a direct room waits, other requests commit what `Env.others` says, which is any function.
--   `persistWithSeq` makes three attempts, as in the code; the fuel of `persist_attempts` is that
--     number, and running out of it is the error that the code throws. The client that follows cursors
--     in Messages.History.Walk has as many rounds as its theorem asks for.
--
-- What is not modelled: the throttler and what the validation pipe rejects (a request is one that both
-- let through), OpenAPI annotations, the wiring of modules and the Redis adapter of the gateway; Firebase,
-- the client of the object store, Kakao, `Number` and the signing of tokens, which are parameters;
-- failures of the database and of Redis; the details of errors and the log. Keys expire in
-- Presence.Heartbeat, and those of presence in System.Run, only.
pub mod Prelude
pub mod Prisma
pub mod Common
pub mod World
pub mod Config
pub mod Env
pub mod Redis
pub mod Messages
pub mod Media
pub mod Rooms
pub mod Auth
pub mod Admin
pub mod Api
pub mod Presence
pub mod Push
pub mod Profile
pub mod Users
pub mod Realtime
pub mod System
pub mod Tests
