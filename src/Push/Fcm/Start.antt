-- ===== src/Push/Fcm/Start.antt =====
-- On `onModuleInit` (src/push/fcm.service.ts).
use intaektok_be.Prelude.{Bool, true, false, not, ◌&&◌, is_some, is_empty, ◌≡◌, arith}
use intaektok_be.Config.{FcmConfig}
use intaektok_be.Push.Fcm.{
  Firebase, File, missing, unreadable, contents, on_module_init, load_service_account,
}

-- There is something at the path, and it cannot be read or is not JSON.
abbrev pub is_broken : {Account : Type 0} → Firebase Account → File → Bool
is_broken fcm missing = false
is_broken fcm unreadable = true
is_broken fcm (contents t) = not (is_some (fcm.parse t))

-- `onModuleInit` throws exactly if no inline account is configured, a path is, and what is at the path
-- is there but cannot be read or is not JSON.
pub on_module_init_throws :
    {Account : Type 0} (fcm : Firebase Account) (c : FcmConfig)
    → not (is_some (on_module_init fcm c)) ≡ (
        is_empty c.service_account
        && not (is_empty c.service_account_json)
        && is_broken fcm (fcm.file c.service_account_json))
unfolding on_module_init load_service_account
on_module_init_throws fcm c = ground arith
