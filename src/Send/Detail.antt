-- ===== src/Send/Detail.antt =====
-- packages/core/send/service.py: the detail view of a send, `send_detail`.
pub mod Countdown
use Prim.Native.String.{String}
use Prim.Native.Char.{code}
use unified_search_safe_send.Prelude.{
  ℕ, Bool, true, false, ◌&&◌, Option, none, some, List, ◌==◌, ltb, if◌then◌else◌, last, where_,
  first_where,
}
use unified_search_safe_send.Prelude.Text.{◌<>◌}
use unified_search_safe_send.Enums.{
  ProviderKind, SendState, gmail, slack, uncertain, failed_transient,
}
use unified_search_safe_send.Jobs.Table.{Job, is_ready}
use unified_search_safe_send.Connections.Row.{Connection}
use unified_search_safe_send.Send.Row.{Send, Draft}
use unified_search_safe_send.Send.Service.{
  Gate, ok, refused, refusal, Db, Resolution, SendPayload, send_payload,
}
use unified_search_safe_send.Send.Service.Operator.{load_own_send, latest_job}

-- `text.lstrip("#")`
unfoldable pub lstrip_hash : String → String
lstrip_hash String.[] = String.[]
lstrip_hash (String.◌∷◌ c s) =
    let rest = lstrip_hash s in if code c == 35 then rest else String.◌∷◌ c s

unfoldable pub verify_url : ProviderKind → String → String
unfolding lstrip_hash
verify_url gmail recipient_display = "https://mail.google.com/mail/u/0/#drafts"
verify_url slack recipient_display =
    "https://slack.com/app_redirect?channel=" <> lstrip_hash recipient_display

-- without the two resolutions on offer, which are constant
pub record Uncertainty : Type 0 where
  pub dispatched_at : Option ℕ
  pub reconcile_attempts : ℕ
  pub reason : Option String
  pub verify_url : String

pub record SendDetail : Type 0 where
  pub payload : SendPayload
  pub next_attempt_at : Option ℕ
  pub backoff_seconds : Option ℕ
  pub channel : ProviderKind
  pub recipient_display : String
  pub connection_display : String
  pub subject : Option String
  pub body : String
  pub max_attempts : ℕ
  pub is_seed : Bool
  pub created_at : ℕ
  pub retryable_by_operator : Bool
  pub resolution : Option (String × Option String × ℕ)
  pub uncertainty : Option Uncertainty

-- a job that is ready with its time ahead of the clock
unfoldable pub is_waiting : ℕ → Job → Bool
is_waiting now j = is_ready j.state && ltb now j.run_at

unfoldable pub waiting_job : ℕ → Option Job → Option Job
unfolding is_waiting
waiting_job now none = none
waiting_job now (some j) = if is_waiting now j then some j else none

abbrev pub next_attempt : Option Job → Option ℕ
next_attempt none = none
next_attempt (some j) = some j.run_at

abbrev pub backoff_of : Option Job → Option ℕ
backoff_of none = none
backoff_of (some j) = j.backoff_seconds

abbrev pub is_failed_transient : SendState → Bool
is_failed_transient failed_transient = true
is_failed_transient _ = false

unfoldable pub uncertainty_of : Send → Draft → SendState → Option Uncertainty
unfolding verify_url
uncertainty_of row d uncertain = some (record {
  dispatched_at = row.dispatched_at;
  reconcile_attempts = row.reconcile_attempts;
  reason = row.last_error_detail;
  verify_url = verify_url row.provider d.recipient_display;
})
uncertainty_of row d _ = none

-- ORDER BY id DESC LIMIT 1 over the resolutions of a send, which are only ever appended
abbrev pub latest_resolution : List Resolution → ℕ → Option (String × Option String × ℕ)
latest_resolution resolutions id = elim (last (where_ (λ r. r.send_id == id) resolutions)) [
  | none ↦ none
  | some r ↦ some (r.resolution, r.note, r.created_at)
]

unfoldable pub detail_payload : ℕ → Db → Send → Draft → Connection → SendDetail
unfolding waiting_job uncertainty_of send_payload latest_job
detail_payload now db row d c =
    let waiting = waiting_job now (latest_job db.jobs.rows row.id) in
    record {
      payload = send_payload now row false;
      next_attempt_at = next_attempt waiting;
      backoff_seconds = backoff_of waiting;
      channel = row.provider;
      recipient_display = d.recipient_display;
      connection_display = c.display_name;
      subject = d.subject;
      body = d.body;
      max_attempts = db.settings_max_attempts;
      is_seed = row.is_seed;
      created_at = row.created_at;
      retryable_by_operator = is_failed_transient row.state;
      resolution = latest_resolution db.resolutions row.id;
      uncertainty = uncertainty_of row d row.state;
    }

-- the row of this user with its draft and its connection
unfoldable pub joined : Db → ℕ → ℕ → Option (Send × Draft × Connection)
joined db send_id user_id = elim (load_own_send db.sends send_id user_id) [
  | none ↦ none
  | some row ↦ elim (first_where (λ d. d.id == row.draft_id) db.drafts) [
    | none ↦ none
    | some d ↦ elim (first_where (λ c. c.id == row.connection_id) db.connections) [
      | none ↦ none
      | some c ↦ some (row, d, c)
    ]
  ]
]

unfoldable pub send_detail : ℕ → Db → ℕ → ℕ → Gate SendDetail
send_detail now db send_id user_id = elim (joined db send_id user_id) [
  | none ↦ refused (refusal "not_found" 404)
  | some (row, d, c) ↦ ok (detail_payload now db row d c)
]
