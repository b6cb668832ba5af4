-- ===== src/Env.antt =====
-- What the server is configured with, and what it calls and does not implement: every service takes
-- it as its first argument.
use intaektok_be.Prelude.{ℕ, Bool, Option, Ident, Text}
use intaektok_be.World.{World}
use intaektok_be.Messages.SystemMessage.{SystemMessagePayload}

pub record Env : Type 0 where
  -- the n-th id that the database generates (`cuid()`)
  pub cuid : ℕ → Ident
  -- `JSON.stringify` and `JSON.parse` on the payload of a SYSTEM message; `none` is a syntax error
  pub stringify : SystemMessagePayload → Text
  pub parse : Text → Option SystemMessagePayload
  -- the order of strings that `Array.sort` uses
  pub id_le : Ident → Ident → Bool
  -- the order that the database sorts strings in, and its `contains` that ignores case
  pub db_le : Ident → Ident → Bool
  pub ilike : Text → Text → Bool
  -- `StorageService`: the URLs of an object by its key, and what `headObject` finds, with its length
  pub read_url : Text → Text
  pub download_url : Text → Text
  pub upload_url : Text → Text → Text
  pub head_object : Text → Option (Option ℕ)
  -- `uuidv4`, and the year and the month of a time, as in `2026/06`
  pub uuid : ℕ → Text
  pub year_month : ℕ → Text
  -- of two violated unique constraints of a message, whether the database names that of `seq`
  pub names_seq : Bool
  -- what other requests commit while an insert waits; for a message, by the attempts that remain
  pub others : ℕ → World → World
  -- `policy.messageUnsendWindowSec` and `policy.mediaMaxBytes`
  pub unsend_window_sec : ℕ
  pub max_bytes : ℕ
