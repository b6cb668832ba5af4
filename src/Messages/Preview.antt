-- ===== src/Messages/Preview.antt =====
-- src/messages/preview.ts: the one-line preview of a message. `none` is the error that `JSON.parse`
-- throws.
use intaektok_be.Prelude.{Option, none, some, [], ◌∷◌, take, Text, codes}
use intaektok_be.Prisma.{MessageType, text, image, gif, video, file, system}
use intaektok_be.Env.{Env}
use intaektok_be.Messages.SystemMessage.{SystemMessagePayload, system_preview}

-- `content ?? ''`
abbrev pub or_empty : Option Text → Text
or_empty none = []
or_empty (some t) = t

abbrev pub preview_payload : Option SystemMessagePayload → Option Text
preview_payload none = none
preview_payload (some p) = some (system_preview p)

abbrev pub preview_system : Env → Option Text → Option Text
preview_system env none = some (codes "시스템 메시지")
preview_system env (some []) = some (codes "시스템 메시지")
preview_system env (some (c ∷ cs)) = preview_payload (env.parse (c ∷ cs))

unfoldable pub message_preview : Env → MessageType → Option Text → Option Text
message_preview env text content = some (take 80 (or_empty content))
message_preview env image _ = some (codes "사진")
message_preview env gif _ = some (codes "움짤")
message_preview env video _ = some (codes "동영상")
message_preview env file _ = some (codes "파일")
message_preview env system content = preview_system env content
