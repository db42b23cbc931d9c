-- ===== src/Api/Listing.antt =====
-- The two listings: `list_sends` (packages/core/send/service.py, apps/api/routes_v1.py) and
-- `list_searches` (apps/api/routes_v1.py). The rows are the tables'; what a payload adds to a row
-- from other tables is not part of the paging.
pub mod Whole
use unified_search_safe_send.Prelude.{ℕ, Bool, true, false, not, ◌&&◌, ◌||◌, Option, List, ◌==◌}
use unified_search_safe_send.Send.Row.{Send}
use unified_search_safe_send.Adapters.Table.{Search}
use unified_search_safe_send.Api.Paging.{Cursor, listing}

abbrev pub visible_send : ℕ → Bool → Send → Bool
visible_send user_id include_seed s = s.user_id == user_id && (include_seed || not s.is_seed)

unfoldable pub list_sends : List Send → ℕ → ℕ → Option Cursor → Bool → List Send × Option Cursor
list_sends sends user_id limit before include_seed =
    listing (λ s. s.created_at) (λ s. s.id) (visible_send user_id include_seed) before limit sends

abbrev pub visible_search : ℕ → Bool → Search → Bool
visible_search user_id include_seed s = s.user_id == user_id && (include_seed || not s.is_seed)

unfoldable pub list_searches :
    List Search → ℕ → ℕ → Option Cursor → Bool → List Search × Option Cursor
list_searches searches user_id limit before include_seed =
    listing (λ s. s.created_at) (λ s. s.id) (visible_search user_id include_seed) before limit
      searches
