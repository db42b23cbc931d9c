-- ===== src/Send/Service.antt =====
-- packages/core/send/service.py: the send gate
-- (`send_draft`). The session's transaction is explicit: an operation
-- takes the tables and returns its answer with the tables that a commit would leave; after a refusal
-- the caller rolls back, so a refusal comes with no tables. `sha256` is the digest's hash.
pub mod Answered
pub mod Decision
pub mod First
pub mod Operator
pub mod Twice
use unified_search_safe_send.Prelude.{
  ℕ, ◌+◌, ◌-◌, ◌*◌, Bool, true, false, not, ◌&&◌, Option, none, some, List, [], ◌∷◌, ◌++◌, String,
  ◌==◌, leb, str_eq, if◌then◌else◌, is_some, or_default, coalesce, first_where, where_,
  update_where,
}
use unified_search_safe_send.Prelude.Text.{◌<>◌, show}
use unified_search_safe_send.Enums.{
  ProviderKind, SendState, ErrorClass, JobKind, send, in_flight, delivered, failed_permanent,
  failed_transient, uncertain,
}
use unified_search_safe_send.Jobs.Table.{Job, Jobs}
use unified_search_safe_send.Jobs.Queue.{Enqueue, enqueue}
use unified_search_safe_send.Jobs.Queue
use unified_search_safe_send.Connections.Row.{Connection}
use unified_search_safe_send.Send.Row.{Send, Draft, load_send, load_draft, update_send}
use unified_search_safe_send.Send.Claim.{
  ClaimArgs, ClaimResult, claimed, contention, Interleaving, load_send_by_key, claim_send,
}
use unified_search_safe_send.Send.Digest.{channel_value, confirmation_digest}

pub record GateError : Type 0 where
  pub code : String
  pub status : ℕ
  pub classification : String
  pub action_url : Option String

-- `conflict` is an IntegrityError or a ClaimContention: an error that is not a refusal
pub data Gate (A : Type 0) : Type 0 where
  ok : A → Gate A
  refused : GateError → Gate A
  conflict : Gate A

abbrev pub refusal : String → ℕ → GateError
refusal code status = record {
  code = code;
  status = status;
  classification = "permanent";
  action_url = none;
}

-- the `send_resolutions` table without its identity column
pub record Resolution : Type 0 where
  pub send_id : ℕ
  pub user_id : ℕ
  pub resolution : String
  pub note : Option String
  pub created_at : ℕ

-- the tables of the gate; `settings_max_attempts` is the setting MAX_ATTEMPTS
pub record Db : Type 0 where
  pub sends : List Send
  pub drafts : List Draft
  pub connections : List Connection
  pub jobs : Jobs
  pub resolutions : List Resolution
  pub settings_max_attempts : ℕ

-- packages/core/send/retention.py
pub data ReplaySource : Type 0 where
  cached reconstructed : ReplaySource

abbrev pub replay_cache_ttl : ℕ
replay_cache_ttl = 24 * 3600 * 1000000

-- `now - created_at <= TTL`, also where the row is newer than the clock
unfoldable pub replay_source : ℕ → ℕ → ReplaySource
replay_source created_at now =
    if leb now (created_at + replay_cache_ttl) then cached else reconstructed

pub record SendPayload : Type 0 where
  pub send_id : ℕ
  pub state : SendState
  pub idempotent_replay : Bool
  pub attempts : ℕ
  pub provider_message_id : Option String
  pub delivered_at : Option ℕ
  pub dispatched_at : Option ℕ
  pub reconcile_attempts : ℕ
  pub source : Option ReplaySource
  pub error : Option (ErrorClass × Option String)

unfoldable pub send_payload : ℕ → Send → Bool → SendPayload
unfolding replay_source
send_payload now row idempotent_replay = record {
  send_id = row.id;
  state = row.state;
  idempotent_replay = idempotent_replay;
  attempts = row.attempts;
  provider_message_id = row.provider_message_id;
  delivered_at = row.delivered_at;
  dispatched_at = row.dispatched_at;
  reconcile_attempts = row.reconcile_attempts;
  source = if idempotent_replay then some (replay_source row.created_at now) else none;
  error = elim row.last_error_class [ none ↦ none | some c ↦ some (c, row.last_error_detail) ];
}

pub record SendOutcome : Type 0 where
  pub payload : SendPayload
  pub status : ℕ
  pub idempotent_replay : Bool

unfoldable pub replay : ℕ → Send → String → Gate SendOutcome
replay now row confirmed =
    if str_eq row.confirmed_sha256 confirmed
    then ok (record { payload = send_payload now row true; status = 200; idempotent_replay = true })
    else refused (refusal "idempotency_key_body_mismatch" 422)

-- a replay with the tables that it leaves
unfoldable pub answer_with : Gate SendOutcome → Db → Gate (SendOutcome × Db)
answer_with (ok outcome) db = ok (outcome, db)
answer_with (refused e) db = refused e
answer_with conflict db = conflict

-- the draft's row of this user, and its connection
unfoldable pub get_draft : Db → ℕ → ℕ → Option (Draft × Connection)
get_draft db draft_id user_id =
    elim (first_where (λ d. d.id == draft_id && d.user_id == user_id) db.drafts) [
      | none ↦ none
      | some d ↦ elim (first_where (λ c. c.id == d.connection_id) db.connections) [
        | none ↦ none
        | some c ↦ some (d, c)
      ]
    ]

unfoldable pub draft_digest : (String → String) → Draft → String
draft_digest sha256 d =
    confirmation_digest sha256 d.channel d.recipient d.recipient_display d.subject d.body

abbrev pub partition_of : ProviderKind → ℕ → String
partition_of provider connection_id = channel_value provider <> ":" <> show connection_id

abbrev pub send_job : Send → Option String → Enqueue
send_job row dedupe_key = record {
  kind = send;
  ref_id = row.id;
  dedupe_key = dedupe_key;
  partition_key = some (partition_of row.provider row.connection_id);
  priority = 0;
  run_at = none;
  max_attempts = none;
}

-- after the claim: the winner books the job, everyone else reports the row that exists
unfoldable pub after_claim : ℕ → Db → String → ClaimResult × List Send → Gate (SendOutcome × Db)
after_claim now db confirmed (contention, sends) = conflict
after_claim now db confirmed (claimed row false, sends) =
    answer_with (replay now row confirmed) (record db { sends = sends })
after_claim now db confirmed (claimed row true, sends) =
    let (job_id, jobs) =
      enqueue now db.settings_max_attempts db.jobs (send_job row (some ("send:" <> show row.id))) in
    ok (
      record { payload = send_payload now row false; status = 201; idempotent_replay = false },
      record db { sends = sends; jobs = jobs },
    )

abbrev pub claim_args : ℕ → Draft → Connection → String → ClaimArgs
claim_args user_id d c confirmed = record {
  user_id = user_id;
  draft_id = d.id;
  connection_id = c.id;
  provider = d.channel;
  idempotency_key = d.idempotency_key;
  confirmed_sha256 = confirmed;
}

-- the decision once a digest was given
unfoldable pub decide :
    (String → String)
    → Interleaving
    → ℕ
    → ℕ
    → Db
    → ℕ
    → String
    → Draft
    → Connection
    → Gate (SendOutcome × Db)
decide sha256 others now id db user_id confirmed d c =
    elim (load_send_by_key db.sends user_id d.idempotency_key) [
      | some row ↦ answer_with (replay now row confirmed) db
      | none ↦
          if str_eq confirmed (draft_digest sha256 d)
          then after_claim now db confirmed
              (claim_send others now id (claim_args user_id d c confirmed) (others.before db.sends))
          else refused (refusal "body_changed_since_confirmation" 422)
    ]

abbrev pub given : Option String → Bool
given none = false
given (some digest) = not (str_eq digest "")

-- `id` is the uuid that the database would generate for a new row
unfoldable pub send_draft :
    (String → String) → Interleaving → ℕ → ℕ → Db → ℕ → ℕ → Option String → Gate (SendOutcome × Db)
send_draft sha256 others now id db draft_id user_id confirmed_sha256 =
    elim (get_draft db draft_id user_id) [
      | none ↦ refused (refusal "not_found" 404)
      | some (d, c) ↦
          if given confirmed_sha256
          then decide sha256 others now id db user_id (or_default confirmed_sha256 "") d c
          else refused (refusal "confirmation_required" 422)
    ]
