-- ===== src/Api/Listing/Whole.antt =====
-- The two histories, page after page, against one query without a limit.
use unified_search_safe_send.Prelude.{ℕ, suc, ◌≡◌, Bool, none, List, ◌≤◌, length, where_, Distinct}
use unified_search_safe_send.Send.Row.{Send}
use unified_search_safe_send.Adapters.Table.{Search}
use unified_search_safe_send.Api.Paging.{newest_first, follow}
use unified_search_safe_send.Api.Paging.Whole.{follow-listing}
use unified_search_safe_send.Api.Listing.{visible_send, list_sends, visible_search, list_searches}

-- Where no two sends have one id, a client that follows the cursors of `list_sends` with any limit of
-- at least 1, for as many pages as there are sends, sees what one query without a limit gives: the
-- user's sends, without the seeded ones if it asked for that, newest first, each as often as the
-- table has it.
pub follow-list_sends :
    (sends : List Send) (user_id k pages : ℕ) (include_seed : Bool)
    → Distinct (λ s. s.id) sends
    → length sends ≤ pages
    → follow pages (λ c. list_sends sends user_id (suc k) c include_seed) none
      ≡ newest_first
          (λ s. s.created_at)
          (λ s. s.id)
          (where_ (visible_send user_id include_seed) sends)
unfolding list_sends
follow-list_sends sends user_id k pages include_seed d h =
    follow-listing (λ s. s.created_at) (λ s. s.id) (visible_send user_id include_seed) k pages sends
      d h

-- The same of `list_searches`.
pub follow-list_searches :
    (searches : List Search) (user_id k pages : ℕ) (include_seed : Bool)
    → Distinct (λ s. s.id) searches
    → length searches ≤ pages
    → follow pages (λ c. list_searches searches user_id (suc k) c include_seed) none
      ≡ newest_first
          (λ s. s.created_at)
          (λ s. s.id)
          (where_ (visible_search user_id include_seed) searches)
unfolding list_searches
follow-list_searches searches user_id k pages include_seed d h =
    follow-listing (λ s. s.created_at) (λ s. s.id) (visible_search user_id include_seed) k pages
      searches d h
