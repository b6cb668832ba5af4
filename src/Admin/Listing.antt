-- ===== src/Admin/Listing.antt =====
-- src/admin/admin.service.ts: the lists of the whitelist and of the access requests.
use intaektok_be.Prelude.{ℕ, Bool, true, false, Option, none, some, List}
use intaektok_be.Prisma.{Whitelist, WhitelistStatus, AccessRequest}
use intaektok_be.World.{Call, gets}
use intaektok_be.Common.Listing.{query, page, next}
use intaektok_be.Messages.History.{Paginated}

abbrev same_status : WhitelistStatus → WhitelistStatus → Bool
same_status WhitelistStatus.invited WhitelistStatus.invited = true
same_status WhitelistStatus.active WhitelistStatus.active = true
same_status WhitelistStatus.blocked WhitelistStatus.blocked = true
same_status _ _ = false

abbrev pub has_status : Option WhitelistStatus → Whitelist → Bool
has_status none x = true
has_status (some s) x = same_status x.status s

abbrev created_at : Whitelist → ℕ
created_at x = x.created_at

abbrev requested_at : AccessRequest → ℕ
requested_at r = r.created_at

abbrev paged : {A : Type 0} → (A → ℕ) → ℕ → List A → Paginated A
paged time limit rows = record { items = page time limit rows; next_cursor = next time limit rows }

unfoldable pub list : Option WhitelistStatus → Option ℕ → ℕ → Call (Paginated Whitelist)
list status cursor limit =
    gets
      (λ w. paged created_at limit (query created_at (has_status status) cursor limit w.whitelist))

unfoldable pub list_access_requests : Option ℕ → ℕ → Call (Paginated AccessRequest)
list_access_requests cursor limit =
    gets (λ w.
      paged requested_at limit (query requested_at (λ _. true) cursor limit w.access_requests))
