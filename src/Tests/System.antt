-- ===== src/Tests/System.antt =====
-- The theorems on runs of the whole server.
use intaektok_be.Prelude.{ℕ, suc, none, some, List, [], ◌∷◌, In, length, ◌≡◌, refl, arith, inl, inr}
use intaektok_be.Prisma.{Message}
use intaektok_be.Common.Views.{SerializedMessage}
use intaektok_be.World.{World}
use intaektok_be.Messages.History.{history}
use intaektok_be.Messages.History.Walk.{fetch_all}
use intaektok_be.Api.Routes.{whitelist_update, Body, success, respond}
use intaektok_be.Api.Messages.{SentMessage}
use intaektok_be.System.Run.{Run, Step, http, stay, then}
use intaektok_be.System.Run.Messages.{Shows, stored_is_shown}
use intaektok_be.System.Run.Accepted.{IsShown, posted, accepted-IsShown}
use intaektok_be.Tests.{world, text, env, ann, bob, cho, entry}
use intaektok_be.Prisma.{User, UserStatus, Whitelist, WhitelistStatus}
use intaektok_be.Auth.Session.{find_user}
use intaektok_be.System.Run.Blocked.{run-Sound, IsShutOut, blocked-IsShutOut}
use intaektok_be.Admin.{with_status}
use intaektok_be.System.Accounts.Sound.{Sound}
use intaektok_be.Tests.Web.{server, block, greeting, greeting_dto}

-- Ann's message of the group.
abbrev first_message : Message
first_message = text 20 1 1 71

-- Ann writes over the REST API and then, over her socket, takes her first message back.
abbrev after_greeting : World
after_greeting = (respond server (some (1 ∷ [])) greeting world).1

abbrev after_both : World
after_both = (intaektok_be.Realtime.Handlers.on_delete server.env 1 10 20 after_greeting).1

abbrev both : Run server world after_both
both = then (then stay (http (some (1 ∷ [])) greeting)) (Step.deleted 1 10 20)

abbrev one_more : Run server after_greeting after_both
one_more = then stay (Step.deleted 1 10 20)

-- A round more than the group has messages.
abbrev rounds : ℕ
rounds = suc (length (history 10 after_both))

abbrev answer : SentMessage
answer = record { id = 900; seq = 3; created_at = 1000 }

answered : (respond server (some (1 ∷ [])) greeting world).0 ≡ success 201 (Body.sent answer)
unfolding respond intaektok_be.Api.Routes.serve intaektok_be.Api.run_guards intaektok_be.Api.guards
    intaektok_be.Api.Routes.access_of intaektok_be.Api.can_activate
    intaektok_be.Api.authenticate_bearer intaektok_be.Auth.Guards.authenticate
    intaektok_be.Auth.Guards.validate_token intaektok_be.Auth.Guards.onboarded_guard
    intaektok_be.Auth.Guards.room_member_guard intaektok_be.Api.Routes.room_of
    intaektok_be.Api.Routes.handle intaektok_be.Api.Messages.send
    intaektok_be.Messages.Create.create_message intaektok_be.Messages.Create.create_new
    intaektok_be.Messages.Checks.check_params intaektok_be.Messages.Checks.assert_active_member
    intaektok_be.Messages.Checks.validate_payload intaektok_be.Messages.Persist.persist_with_seq
    intaektok_be.Messages.Persist.persist_attempts intaektok_be.Messages.Seq.next_seq
    intaektok_be.Messages.Persist.insert_message intaektok_be.Messages.Create.finish
    intaektok_be.Messages.Create.touch_room intaektok_be.Messages.Create.emit_created
    intaektok_be.Messages.Preview.message_preview intaektok_be.Messages.Persist.serialize
    intaektok_be.Api.Routes.status_of
answered = refl

stored_is_shown_example :
    (items : List SerializedMessage) × (fetch_all rounds 10 none 2 after_both ≡ some items)
    × (x : SerializedMessage) × In x items
    × Shows first_message x
stored_is_shown_example =
    stored_is_shown server world after_both first_message 1 rounds (λ left w u. u) (λ left w h. h)
      (refl, refl, (refl, refl, tt)) (inr (inl refl)) both (omega arith)

accepted-IsShown_example : IsShown after_both 10 900 3 1 rounds
accepted-IsShown_example =
    accepted-IsShown server world after_greeting after_both 10 900 3 1 rounds (λ left w u. u)
      (λ m left w h. h) (refl, refl, (refl, refl, tt))
      (posted (some (1 ∷ [])) 10 greeting_dto answer answered) one_more (omega arith)

-- Bob, whose entry is blocked, is suspended.
abbrev start : World
start = record world { users = ann ∷ with_status UserStatus.suspended bob ∷ cho ∷ [] }

start-Sound : Sound env start
start-Sound = record {
  entries = record {
    by_id = λ x y k i j a b. grind arith;
    by_kakao = λ x y k i j a b. grind arith;
    old = λ x n i h. grind arith;
  };
  users = record {
    by_id = λ x y k i j a b. grind arith;
    by_kakao = λ x y k i j a b. grind arith;
    old = λ x n i h. grind arith;
  };
  agree = λ x u i j o b. grind arith;
}

-- Cho, the admin, blocks Ann's entry.
abbrev ann_blocked : World
ann_blocked = (respond server (some (3 ∷ [])) (whitelist_update 51 block) start).1

abbrev blocked_entry : Whitelist
blocked_entry = entry 51 101 WhitelistStatus.blocked

abbrev ann_out : User
ann_out = with_status UserStatus.suspended ann

rows_after : In blocked_entry ann_blocked.whitelist × (find_user 1 ann_blocked ≡ some ann_out)
unfolding respond intaektok_be.Api.Routes.serve intaektok_be.Api.run_guards intaektok_be.Api.guards
    intaektok_be.Api.Routes.access_of intaektok_be.Api.can_activate
    intaektok_be.Api.authenticate_bearer intaektok_be.Auth.Guards.authenticate
    intaektok_be.Auth.Guards.validate_token intaektok_be.Auth.Guards.admin_guard
    intaektok_be.Auth.Guards.is_admin_identity intaektok_be.Api.Routes.handle
    intaektok_be.Api.Whitelist.update intaektok_be.Admin.update intaektok_be.Admin.enforce_block
rows_after = (inl refl, refl)

run-Sound_example : Sound env ann_blocked
run-Sound_example =
    run-Sound server start ann_blocked (λ a b e. e) (λ left w h. h) start-Sound
      (then stay (http (some (3 ∷ [])) (whitelist_update 51 block)))

blocked-IsShutOut_example : IsShutOut server ann_out ann_blocked
blocked-IsShutOut_example =
    blocked-IsShutOut server start ann_blocked blocked_entry ann_out (λ a b e. e) (λ left w h. h)
      start-Sound (then stay (http (some (3 ∷ [])) (whitelist_update 51 block))) rows_after.0
      rows_after.1 (refl, refl) refl
