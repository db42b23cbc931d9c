-- ===== src/Send/Row.antt =====
-- The `sends` and `drafts` tables (migrations/versions/0002_core_schema.py, packages/core/models.py)
-- and the transitions of packages/core/send/handler.py on a send's row: each an UPDATE by id, most of
-- them compare-and-swaps on `state`. A uuid is an opaque number, a time is in microseconds.
pub mod Load
use unified_search_safe_send.Prelude.{
  ℕ, ◌+◌, Bool, true, false, ◌&&◌, Option, none, some, List, String, ◌==◌, str_eq, if◌then◌else◌,
  is_some, coalesce, or_default, update_where, rowcount, first_where,
}
use unified_search_safe_send.Enums.{
  ProviderKind, SendState, ErrorClass, in_flight, delivered, uncertain, transient,
}

pub record Send : Type 0 where
  pub id : ℕ
  pub user_id : ℕ
  pub draft_id : ℕ
  pub connection_id : ℕ
  pub provider : ProviderKind
  pub idempotency_key : String
  pub state : SendState
  pub confirmed_sha256 : String
  pub provider_draft_id : Option String
  pub provider_message_id : Option String
  pub attempts : ℕ
  pub reconcile_attempts : ℕ
  pub dispatched_at : Option ℕ
  pub delivered_at : Option ℕ
  pub last_error_class : Option ErrorClass
  pub last_error_detail : Option String
  pub is_seed : Bool
  pub created_at : ℕ
  pub updated_at : ℕ

pub record Draft : Type 0 where
  pub id : ℕ
  pub user_id : ℕ
  pub connection_id : ℕ
  pub channel : ProviderKind
  pub recipient : String
  pub recipient_display : String
  pub subject : Option String
  pub body : String
  pub idempotency_key : String
  pub in_reply_to_result_id : Option ℕ
  pub in_reply_to_external : Option String
  pub created_at : ℕ
  pub updated_at : ℕ

abbrev pub is_in_flight : SendState → Bool
is_in_flight in_flight = true
is_in_flight _ = false

unfoldable pub load_send : List Send → ℕ → Option Send
load_send sends id = first_where (λ s. s.id == id) sends

unfoldable pub load_draft : List Draft → ℕ → Option Draft
load_draft drafts id = first_where (λ d. d.id == id) drafts

-- `WHERE id = :id AND` a further test
abbrev pub at_send : ℕ → (Send → Bool) → Send → Bool
at_send id test s = s.id == id && test s

abbrev pub while_in_flight : Send → Bool
while_in_flight s = is_in_flight s.state

unfoldable pub update_send : ℕ → (Send → Bool) → (Send → Send) → List Send → List Send
update_send id test change sends = update_where (at_send id test) change sends

unfoldable pub affected_one : ℕ → (Send → Bool) → List Send → Bool
affected_one id test sends = rowcount (at_send id test) sends == 1

abbrev pub set_dispatched : ℕ → Option String → Send → Send
set_dispatched now draft_id s = record s {
  dispatched_at = coalesce s.dispatched_at (some now);
  provider_draft_id = coalesce s.provider_draft_id draft_id;
  attempts = s.attempts + 1;
  updated_at = now;
}

unfoldable pub commit_dispatch_attempt : ℕ → ℕ → Option String → List Send → List Send
commit_dispatch_attempt now id draft_id sends =
    update_send id while_in_flight (set_dispatched now draft_id) sends

pub record SendReceipt : Type 0 where
  pub provider_message_id : String
  pub provider_draft_id : Option String

abbrev pub set_delivered : ℕ → SendReceipt → String → Send → Send
set_delivered now receipt evidence s = record s {
  state = delivered;
  provider_message_id = some receipt.provider_message_id;
  provider_draft_id = coalesce receipt.provider_draft_id s.provider_draft_id;
  delivered_at = some now;
  last_error_class = none;
  last_error_detail = if str_eq evidence "" then none else some evidence;
  updated_at = now;
}

unfoldable pub mark_delivered : ℕ → ℕ → SendReceipt → String → List Send → Bool × List Send
mark_delivered now id receipt evidence sends = (
  affected_one id while_in_flight sends,
  update_send id while_in_flight (set_delivered now receipt evidence) sends,
)

-- `state = 'in_flight' AND dispatched_at IS NOT NULL`
abbrev pub in_doubt : Send → Bool
in_doubt s = is_in_flight s.state && is_some s.dispatched_at

abbrev pub set_uncertain : ℕ → String → Send → Send
set_uncertain now reason s = record s {
  state = uncertain;
  last_error_class = some transient;
  last_error_detail = some reason;
  updated_at = now;
}

unfoldable pub mark_uncertain : ℕ → ℕ → String → List Send → List Send
mark_uncertain now id reason sends = update_send id in_doubt (set_uncertain now reason) sends

abbrev pub set_error : ℕ → ErrorClass → String → Send → Send
set_error now error_class detail s = record s {
  last_error_class = some error_class;
  last_error_detail = some detail;
  updated_at = now;
}

unfoldable pub record_error : ℕ → ℕ → ErrorClass → String → List Send → List Send
record_error now id error_class detail sends =
    update_send id while_in_flight (set_error now error_class detail) sends

abbrev pub set_state : ℕ → SendState → ErrorClass → String → Send → Send
set_state now state error_class detail s = record s {
  state = state;
  last_error_class = some error_class;
  last_error_detail = some detail;
  updated_at = now;
}

unfoldable pub set_terminal : ℕ → ℕ → SendState → ErrorClass → String → List Send → List Send
set_terminal now id state error_class detail sends =
    update_send id while_in_flight (set_state now state error_class detail) sends

abbrev pub any_state : Send → Bool
any_state s = true

abbrev pub set_bumped : ℕ → Send → Send
set_bumped now s = record s { reconcile_attempts = s.reconcile_attempts + 1; updated_at = now }

-- RETURNING reconcile_attempts, and 0 where there is no row
unfoldable pub bump_reconcile_attempts : ℕ → ℕ → List Send → ℕ × List Send
bump_reconcile_attempts now id sends =
    let after = update_send id any_state (set_bumped now) sends in
    (elim (load_send after id) [ none ↦ 0 | some s ↦ s.reconcile_attempts ], after)
