-- ===== src/Push/Fcm.antt =====
-- src/push/fcm.service.ts: the credentials of Firebase, and the tokens that it finds invalid.
pub mod Start
pub mod Purge
use intaektok_be.Prelude.{
  ℕ, Bool, true, false, ◌||◌, Option, none, some, List, [], ◌∷◌, Ident, Text, codes, text_eq,
  starts_with, trim, if◌then◌else◌,
}
use intaektok_be.Common.Events.{MessageCreatedEvent}
use intaektok_be.World.{World}
use intaektok_be.Config.{FcmConfig}
use intaektok_be.Push.{on_message_created}

pub record PushNotification : Type 0 where
  pub title : Text
  pub body : Text

-- One of the responses of `sendEachForMulticast`: success, or the code of the error if it has one.
pub data SendResponse : Type 0 where
  delivered : SendResponse
  failed : Option Text → SendResponse

-- What is at a path: nothing, something that `readFileSync` does not read, or a file.
pub data File : Type 0 where
  missing unreadable : File
  contents : Text → File

-- `Buffer.from(t, 'base64').toString('utf8')`, `JSON.parse`, where it does not throw, what is at a path,
-- whether `initializeApp` takes a service account, and the responses
-- of `sendEachForMulticast` to a list of tokens.
pub record Firebase (Account : Type 0) : Type 0 where
  pub from_base64 : Text → Text
  pub parse : Text → Option Account
  pub file : Text → File
  pub initialize : Account → Bool
  pub respond : List Ident → PushNotification → List SendResponse

-- The account, or that there is none, or that loading it threw.
pub data Loaded (Account : Type 0) : Type 0 where
  account : Account → Loaded Account
  absent threw : Loaded Account

module _ {Account : Type 0} (fcm : Firebase Account) where
  abbrev parsed_or : Loaded Account → Option Account → Loaded Account
  parsed_or fallback none = fallback
  parsed_or fallback (some a) = account a

  -- A syntax error of an inline account is caught.
  abbrev load_inline : Text → Loaded Account
  load_inline t =
      let trimmed = trim t in
      parsed_or absent
        (fcm.parse (if starts_with trimmed (codes "{") then trimmed else fcm.from_base64 trimmed))

  -- One of a file is not, and neither is the failure to read it.
  abbrev load_contents : File → Loaded Account
  load_contents missing = absent
  load_contents unreadable = threw
  load_contents (contents t) = parsed_or threw (fcm.parse t)

  abbrev load_file : Text → Loaded Account
  load_file [] = absent
  load_file (c ∷ cs) = load_contents (fcm.file (c ∷ cs))

  abbrev load_from : Text → Text → Loaded Account
  load_from [] path = load_file path
  load_from (c ∷ cs) path = load_inline (c ∷ cs)

  unfoldable pub load_service_account : FcmConfig → Loaded Account
  load_service_account c = load_from c.service_account c.service_account_json

  -- Whether there is an app after `onModuleInit`; `none` where it throws.
  abbrev init_with : Loaded Account → Option Bool
  init_with absent = some false
  init_with threw = none
  init_with (account a) = some (fcm.initialize a)

  unfoldable pub on_module_init : FcmConfig → Option Bool
  on_module_init c = init_with (load_service_account c)

  abbrev pub is_gone_code : Text → Bool
  is_gone_code code =
      text_eq code (codes "messaging/registration-token-not-registered")
      || text_eq code (codes "messaging/invalid-registration-token")

  abbrev pub is_gone : SendResponse → Bool
  is_gone delivered = false
  is_gone (failed none) = false
  is_gone (failed (some code)) = is_gone_code code

  -- `res.responses.forEach`; there are as many responses as tokens.
  abbrev pub invalid_of : List Ident → List SendResponse → List Ident
  invalid_of [] _ = []
  invalid_of (t ∷ ts) [] = []
  invalid_of (t ∷ ts) (r ∷ rs) = let rest = invalid_of ts rs in if is_gone r then t ∷ rest else rest

  -- Without an app or without tokens nothing is sent.
  unfoldable pub send_to_tokens : Bool → PushNotification → List Ident → List Ident
  send_to_tokens false notification tokens = []
  send_to_tokens true notification [] = []
  send_to_tokens true notification (t ∷ ts) =
      invalid_of (t ∷ ts) (fcm.respond (t ∷ ts) notification)

  abbrev pub notification_of : MessageCreatedEvent → PushNotification
  notification_of event = record { title = event.room_title; body = event.preview }

  -- `onMessageCreated` of the push service, over this service.
  unfoldable pub push_message : Bool → MessageCreatedEvent → World → World
  push_message app event w = on_message_created (send_to_tokens app (notification_of event)) event w
