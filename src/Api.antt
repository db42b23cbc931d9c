-- ===== src/Api.antt =====
-- apps/api: the listings of the HTTP API and their pages.
pub mod Paging
pub mod Listing
