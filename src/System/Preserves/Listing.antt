-- ===== src/System/Preserves/Listing.antt =====
-- On what is kept by `listRooms` (src/rooms/rooms.service.ts).
use intaektok_be.World.{World}
use intaektok_be.Prelude.{ℕ, Option, List, [], ◌∷◌, Ident, subst, sym}
use intaektok_be.World.{pure, ◌>>=◌}
use intaektok_be.Env.{Env}
use intaektok_be.Media.{UrlMap}
use intaektok_be.Rooms.View.Reads.{build_view_reads}
use intaektok_be.Rooms.Listing.{Membership, item_of, items_of, list_rooms}
use intaektok_be.System.Preserves.{Preserves, preserve_rules, bind-Preserves, pure-Preserves}

module _ {Q : World → Type 0} where
  item_of-Preserves :
      (env : Env) (user : Ident) (urls : UrlMap) (x : Membership)
      → Preserves Q (item_of env user urls x)
  unfolding item_of
  item_of-Preserves env user urls x = record {
    at = λ w h. subst Q (sym (build_view_reads env x.room _ _ urls _ w)) h;
  }

  items_of-Preserves :
      (env : Env) (user : Ident) (urls : UrlMap) (xs : List Membership)
      → Preserves Q (items_of env user urls xs)
  unfolding items_of
  items_of-Preserves env user urls [] = search preserve_rules
  items_of-Preserves env user urls (x ∷ xs) =
      bind-Preserves (item_of env user urls x)
        (λ view. items_of env user urls xs >>= λ views. pure (view ∷ views))
        (item_of-Preserves env user urls x)
        (λ view.
          bind-Preserves (items_of env user urls xs) (λ views. pure (view ∷ views))
            (items_of-Preserves env user urls xs) (λ views. pure-Preserves (view ∷ views)))

  pub list_rooms-Preserves :
      (env : Env) (user : Ident) (cursor : Option ℕ) (limit : ℕ)
      → Preserves Q (list_rooms env user cursor limit)
  unfolding list_rooms
  list_rooms-Preserves env user cursor limit = search (preserve_rules, items_of-Preserves) depth 20
