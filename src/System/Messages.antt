-- ===== src/System/Messages.antt =====
-- Invariants of the stored messages, as what all calls keep.
use intaektok_be.Prelude.{ℕ, List, Ident, Text, ◌==◌, update_where, ◌≡◌, sym, subst, arith}
use intaektok_be.Prisma.{Message}
use intaektok_be.World.{World, Call}
use intaektok_be.Env.{Env}
use intaektok_be.Auth.Jwt.{Jwt}
use intaektok_be.Auth.Kakao.{KakaoApi}
use intaektok_be.Auth.Login.{bootstrap_one}
use intaektok_be.Messages.Checks.{CreateMessageParams}
use intaektok_be.Messages.Create.{create_message}
use intaektok_be.Messages.Unsend.{unsent}
use intaektok_be.Presence.{remove_connection}
use intaektok_be.Realtime.Socket.{Client}
use intaektok_be.Realtime.Connection.{handle_disconnect}
use intaektok_be.System.Preserves.{Law, Preserves}

-- The call leaves the messages alone.
abbrev Silent : {A : Type 0} → Call A → Type 0
Silent m = (w : World) → (m w).1.messages ≡ w.messages

kakao_login-Silent :
    (env : Env) (jwt : Jwt) (api : KakaoApi) (c r : Text)
    → Silent (intaektok_be.Auth.Login.kakao_login env jwt api c r)
unfolding intaektok_be.Auth.Login.kakao_login intaektok_be.Auth.Kakao.exchange_code_for_token
    intaektok_be.Auth.Kakao.get_user_info intaektok_be.Auth.Login.admit_identity
    intaektok_be.Auth.Login.admit intaektok_be.Auth.Login.logged_in
    intaektok_be.Auth.Login.upsert_user intaektok_be.Auth.Login.record_access_request
    intaektok_be.Auth.Session.issue_tokens
kakao_login-Silent env jwt api c r = λ w. ground arith

create_entry-Silent :
    (env : Env) (dto : intaektok_be.Admin.CreateWhitelistDto) (u : Ident)
    → Silent (intaektok_be.Admin.create env dto u)
unfolding intaektok_be.Admin.create
create_entry-Silent env dto u = λ w. ground arith

update_entry-Silent :
    (i : Ident) (dto : intaektok_be.Admin.UpdateWhitelistDto)
    → Silent (intaektok_be.Admin.update i dto)
unfolding intaektok_be.Admin.update intaektok_be.Admin.enforce_block intaektok_be.Admin.reactivate
    intaektok_be.Auth.Session.revoke_all_sessions
update_entry-Silent i dto = λ w. ground arith

remove_entry-Silent : (i : Ident) → Silent (intaektok_be.Admin.remove i)
unfolding intaektok_be.Admin.remove intaektok_be.Admin.enforce_block
    intaektok_be.Auth.Session.revoke_all_sessions
remove_entry-Silent i = λ w. ground arith

approve-Silent :
    (env : Env) (i u : Ident) → Silent (intaektok_be.Admin.approve_access_request env i u)
unfolding intaektok_be.Admin.approve_access_request
approve-Silent env i u = λ w. ground arith

disconnect-Silent :
    (client : Client) (w : World) → ((handle_disconnect client w).1).messages ≡ w.messages
unfolding handle_disconnect remove_connection
disconnect-Silent client w = ground arith

boot_one-Silent :
    (env : Env) (i : Ident) (w : World) → (bootstrap_one env i w).messages ≡ w.messages
boot_one-Silent env i w = ground arith

-- What is said of a state through its messages.
abbrev pub Holds : (List Message → Type 0) → World → Type 0
Holds Q w = Q w.messages

-- What is kept by the two operations that write messages, and by other requests, is kept by all.
pub record MessageLaw (env : Env) (Q : List Message → Type 0) : Type 0 where
  pub create : (p : CreateMessageParams) → Preserves (Holds Q) (create_message env p)
  pub unsend :
      (id now : ℕ) (ms : List Message)
      → Q ms
      → Q (update_where (λ (m : Message). m.id == id) (unsent now) ms)
  pub others : (left : ℕ) (w : World) → Q w.messages → Q (env.others left w).messages

pub message_law : (env : Env) (Q : List Message → Type 0) → MessageLaw env Q → Law env (Holds Q)
message_law env Q law = record {
  calm = λ w v (m, _, _, _) h. subst Q (sym m) h;
  create = law.create;
  unsend = λ room id. record { at = λ w h. law.unsend id w.now w.messages h };
  login =
      λ jwt api c r. record { at = λ w h. subst Q (sym (kakao_login-Silent env jwt api c r w)) h };
  create_entry =
      λ dto by. record { at = λ w h. subst Q (sym (create_entry-Silent env dto by w)) h };
  update_entry = λ id dto. record { at = λ w h. subst Q (sym (update_entry-Silent id dto w)) h };
  remove_entry = λ id. record { at = λ w h. subst Q (sym (remove_entry-Silent id w)) h };
  approve = λ id by. record { at = λ w h. subst Q (sym (approve-Silent env id by w)) h };
  boot = λ id w h. subst Q (sym (boot_one-Silent env id w)) h;
  disconnect = λ client w h. subst Q (sym (disconnect-Silent client w)) h;
  others = law.others;
}
