-- ===== src/Send/Service/Operator.antt =====
-- packages/core/send/service.py: what an operator can do with a send, `operator_retry` and
-- `resolve_send`, each an answer with the tables that a commit would leave.
pub mod Resumed
pub mod Passed
pub mod Work
use unified_search_safe_send.Prelude.{
  ℕ, Bool, true, false, ◌&&◌, Option, none, some, List, [], ◌∷◌, ◌++◌, String, ◌==◌, leb, str_eq,
  if◌then◌else◌, coalesce, first_where, where_,
}
use unified_search_safe_send.Enums.{
  SendState, JobKind, send, in_flight, delivered, failed_permanent, failed_transient, uncertain,
}
use unified_search_safe_send.Jobs.Table.{Job, Jobs}
use unified_search_safe_send.Jobs.Queue.{enqueue}
use unified_search_safe_send.Jobs.Queue
use unified_search_safe_send.Send.Row.{Send, update_send}
use unified_search_safe_send.Send.Service.{
  Gate, ok, refused, conflict, refusal, Db, Resolution, SendPayload, send_payload, send_job,
}

-- `load_send` with a user
unfoldable pub load_own_send : List Send → ℕ → ℕ → Option Send
load_own_send sends id user_id = first_where (λ s. s.id == id && s.user_id == user_id) sends

-- ORDER BY id DESC LIMIT 1 over the jobs of a send
abbrev pub is_send_job : ℕ → Job → Bool
is_send_job id j = (elim j.kind [ send ↦ true | JobKind.adapter_run ↦ false ]) && j.ref_id == id

unfoldable pub newest : List Job → Option Job → Option Job
newest [] best = best
newest (j ∷ js) none = newest js (some j)
newest (j ∷ js) (some b) = newest js (if leb b.id j.id then some j else some b)

unfoldable pub latest_job : List Job → ℕ → Option Job
unfolding newest
latest_job rows id = newest (where_ (is_send_job id) rows) none

abbrev pub set_reopened : ℕ → Send → Send
set_reopened now s = record s { state = in_flight; reconcile_attempts = 0; updated_at = now }

abbrev pub owned_by : ℕ → Send → Bool
owned_by user_id s = s.user_id == user_id

-- resume the newest job, whatever comes of it, or book one where there is none
unfoldable pub resume_or_book : ℕ → ℕ → Jobs → Send → Option Jobs
resume_or_book now limit jobs row = elim (latest_job jobs.rows row.id) [
  | none ↦ some (enqueue now limit jobs (send_job row none)).1
  | some j ↦ elim (Queue.operator_retry now jobs j.id 1) [
    | none ↦ none
    | some (resumed, after) ↦ some after
  ]
]

-- the answer is the refreshed row's payload
unfoldable pub answer : ℕ → Db → ℕ → ℕ → Gate (SendPayload × Db)
answer now db id user_id = elim (load_own_send db.sends id user_id) [
  | none ↦ conflict
  | some row ↦ ok (send_payload now row false, db)
]

unfoldable pub retry_failed : ℕ → Db → Send → ℕ → Gate (SendPayload × Db)
retry_failed now db row user_id =
    let sends = update_send row.id (owned_by user_id) (set_reopened now) db.sends in
    elim (resume_or_book now db.settings_max_attempts db.jobs row) [
      | none ↦ conflict
      | some jobs ↦ answer now (record db { sends = sends; jobs = jobs }) row.id user_id
    ]

unfoldable pub retry_by_state : ℕ → Db → Send → ℕ → SendState → Gate (SendPayload × Db)
retry_by_state now db row user_id delivered = ok (send_payload now row true, db)
retry_by_state now db row user_id uncertain = refused (refusal "resolution_required" 409)
retry_by_state now db row user_id in_flight = ok (send_payload now row false, db)
retry_by_state now db row user_id failed_permanent = retry_failed now db row user_id
retry_by_state now db row user_id failed_transient = retry_failed now db row user_id

unfoldable pub operator_retry : ℕ → Db → ℕ → ℕ → Gate (SendPayload × Db)
operator_retry now db send_id user_id = elim (load_own_send db.sends send_id user_id) [
  | none ↦ refused (refusal "not_found" 404)
  | some row ↦ retry_by_state now db row user_id row.state
]

abbrev pub operator_attested : String
operator_attested = "operator-attested"

abbrev pub is_uncertain : SendState → Bool
is_uncertain uncertain = true
is_uncertain _ = false

-- `user_id = :user_id AND state = 'uncertain'`
abbrev pub unresolved : ℕ → Send → Bool
unresolved user_id s = s.user_id == user_id && is_uncertain s.state

abbrev pub set_attested : ℕ → Send → Send
set_attested now s = record s {
  state = delivered;
  provider_message_id = coalesce s.provider_message_id (some operator_attested);
  delivered_at = coalesce s.delivered_at (some now);
  updated_at = now;
}

abbrev pub set_resend : ℕ → Send → Send
set_resend now s = record s {
  state = in_flight;
  reconcile_attempts = 0;
  dispatched_at = none;
  updated_at = now;
}

-- resume the newest job if it is resumable, and otherwise book new work
unfoldable pub resume_else_book : ℕ → ℕ → Jobs → Send → Option Jobs
resume_else_book now limit jobs row = elim (latest_job jobs.rows row.id) [
  | none ↦ some (enqueue now limit jobs (send_job row none)).1
  | some j ↦ elim (Queue.operator_retry now jobs j.id 1) [
    | none ↦ none
    | some (true, after) ↦ some after
    | some (false, after) ↦ some (enqueue now limit after (send_job row none)).1
  ]
]

unfoldable pub settle_send : ℕ → Db → Send → ℕ → String → Gate (SendPayload × Db)
settle_send now db row user_id resolution =
    if str_eq resolution "marked_delivered"
    then answer now
        (record db { sends = update_send row.id (unresolved user_id) (set_attested now) db.sends })
        row.id user_id
    else elim (resume_else_book now db.settings_max_attempts db.jobs row) [
      | none ↦ conflict
      | some jobs ↦
          answer now
            (record db {
              sends = update_send row.id (unresolved user_id) (set_resend now) db.sends;
              jobs = jobs;
            })
            row.id user_id
    ]

-- `resolution in RESOLUTIONS`
abbrev pub known_resolution : String → Bool
known_resolution r = if str_eq r "marked_delivered" then true else str_eq r "forced_resend"

unfoldable pub resolve_send : ℕ → Db → ℕ → ℕ → String → Option String → Gate (SendPayload × Db)
resolve_send now db send_id user_id resolution note =
    if known_resolution resolution
    then elim (load_own_send db.sends send_id user_id) [
      | none ↦ refused (refusal "not_found" 404)
      | some row ↦
          if is_uncertain row.state
          then settle_send now
              (record db {
                resolutions =
                    db.resolutions
                    ++ record {
                      send_id = send_id;
                      user_id = user_id;
                      resolution = resolution;
                      note = note;
                      created_at = now;
                    }
                      ∷ [];
              })
              row user_id resolution
          else refused (refusal "recipient_invalid" 422)
    ]
    else refused (refusal "recipient_invalid" 422)
