-- ===== src/Connections/Row.antt =====
-- The `connections` table (packages/core/models.py) and the bookkeeping of
-- packages/core/connections/store.py that a delivery does, `mark_success`.
use unified_search_safe_send.Prelude.{
  ℕ, Bool, true, false, not, ◌&&◌, Option, none, some, List, [], ◌∷◌, String, ◌==◌, leb,
  if◌then◌else◌, update_where,
}
use unified_search_safe_send.Enums.{ProviderKind, gmail, slack, ConnStatus, ErrorClass, active}
use unified_search_safe_send.Security.Crypto.{Bytes}

pub record Connection : Type 0 where
  pub id : ℕ
  pub user_id : ℕ
  pub provider : ProviderKind
  pub external_account_id : String
  pub display_name : String
  pub status : ConnStatus
  pub granted_scopes : List String
  pub access_token_ct : Option Bytes
  pub refresh_token_ct : Option Bytes
  pub bot_token_ct : Option Bytes
  pub key_version : ℕ
  pub access_expires_at : Option ℕ
  pub refresh_expires_at : Option ℕ
  pub last_success_at : Option ℕ
  pub last_error_class : Option ErrorClass
  pub last_error_detail : Option String
  pub created_at : ℕ
  pub updated_at : ℕ

abbrev pub is_active : ConnStatus → Bool
is_active active = true
is_active _ = false

abbrev pub is_revoked : ConnStatus → Bool
is_revoked ConnStatus.needs_reconnect = true
is_revoked _ = false

abbrev pub set_success : ℕ → Connection → Connection
set_success now c = record c {
  last_success_at = some now;
  status = active;
  last_error_class = none;
  last_error_detail = none;
  updated_at = now;
}

-- ORDER BY id LIMIT 1 over the rows that pass a test
unfoldable pub lowest_id : (Connection → Bool) → List Connection → Option Connection
lowest_id test [] = none
lowest_id test (c ∷ cs) =
    let rest = lowest_id test cs in
    if test c
    then elim rest [ none ↦ some c | some best ↦ if leb c.id best.id then some c else some best ]
    else rest

abbrev pub same_kind : ProviderKind → ProviderKind → Bool
same_kind gmail gmail = true
same_kind slack slack = true
same_kind _ _ = false

abbrev pub own_account : ℕ → ProviderKind → Connection → Bool
own_account user_id channel c = c.user_id == user_id && same_kind c.provider channel

abbrev pub own_active : ℕ → ProviderKind → Connection → Bool
own_active user_id channel c = own_account user_id channel c && is_active c.status

unfoldable pub mark_success : ℕ → ℕ → List Connection → List Connection
mark_success now id = update_where (λ c. c.id == id && not (is_revoked c.status)) (set_success now)
