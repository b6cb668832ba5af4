-- ===== src/System/Preserves/Unsend.antt =====
-- On `softDelete` (src/messages/messages.service.ts) and what it keeps.
use intaektok_be.World.{World}
use intaektok_be.Prelude.{Ident}
use intaektok_be.Prisma.{Message}
use intaektok_be.Env.{Env}
use intaektok_be.Messages.Unsend.{unsend, unsend_in_time, soft_delete}
use intaektok_be.System.Preserves.{Preserves, Law, preserve_rules}

module _ {Q : World → Type 0} where
  module _ (env : Env) (law : Law env Q) where
    unsend-Preserves : (room id : Ident) → Preserves Q (unsend room id)
    unsend-Preserves room id = law.unsend room id

    in_time-Preserves : (room : Ident) (m : Message) → Preserves Q (unsend_in_time env room m)
    in_time-Preserves room m = search (preserve_rules, unsend-Preserves) depth 20

    pub soft_delete-Preserves :
        (room id requester : Ident) → Preserves Q (soft_delete env room id requester)
    unfolding soft_delete
    soft_delete-Preserves room id requester = search (preserve_rules, in_time-Preserves) depth 20
