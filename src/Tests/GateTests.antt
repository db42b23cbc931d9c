-- ===== src/Tests/GateTests.antt =====
-- The gate and the operator's actions at one draft and its send.
use unified_search_safe_send.Prelude.{
  ◌≡◌, refl, true, false, none, some, [], ◌∷◌, String, arith, inl, inr,
}
use unified_search_safe_send.Prelude.Text.{show}
use unified_search_safe_send.Enums.{uncertain, failed_transient, succeeded}
use unified_search_safe_send.Jobs.Table.{Job, Jobs}
use unified_search_safe_send.Jobs.Queue.{enqueue, new_job}
use unified_search_safe_send.Jobs.Queue
use unified_search_safe_send.Jobs.Queue.Consistent.{IsConsistent}
use unified_search_safe_send.Send.Row.{Send, update_send}
use unified_search_safe_send.Send.Claim.{
  ClaimArgs, new_send, load_send_by_key, insert_send, claimed, Interleaving, claim_tries,
  claim_send,
}
use unified_search_safe_send.Send.Claim.Winner.{claim_send-load}
use unified_search_safe_send.Send.Digest.{confirmation_digest, payload}
use unified_search_safe_send.Send.Service.{
  ok, Db, SendOutcome, SendPayload, send_payload, replay, answer_with, get_draft, draft_digest,
  after_claim, claim_args, decide, send_draft, send_job,
}
use unified_search_safe_send.Send.Service.Decision.{IsConfirmed, send_draft_created}
use unified_search_safe_send.Send.Service.Answered.{IsAnswered, send_draft_answers}
use unified_search_safe_send.Send.Service.Twice.{send_draft_twice}
use unified_search_safe_send.Send.Service.Operator.{
  load_own_send, newest, latest_job, answer, operator_retry, resume_else_book, settle_send,
  resolve_send, set_resend,
}
use unified_search_safe_send.Send.Service.Operator.Passed.{IsNow}
use unified_search_safe_send.Send.Service.Operator.Work.{
  IsResent, retry_leaves_jobs, resend_has_job,
}
use unified_search_safe_send.Tests.JobsTests.{waiting_job}
use unified_search_safe_send.Tests.SendTests.{open_send, slack_draft, slack_connection}

-- a hash that can be read
abbrev pub plain : String → String
plain text = text

abbrev pub slack_digest : String
slack_digest = "5:slack2:C17:general0:5:hello"

-- another transaction inserts nothing and deletes nothing
abbrev pub alone : Interleaving
alone = record { before = λ sends. sends; between = λ n sends. sends; next = λ n sends. sends }

abbrev no_jobs : Jobs
no_jobs = record { rows = []; next_id = 1 }

abbrev pub fresh_db : Db
fresh_db = record {
  sends = [];
  drafts = slack_draft ∷ [];
  connections = slack_connection ∷ [];
  jobs = no_jobs;
  resolutions = [];
  settings_max_attempts = 5;
}

abbrev sent_db : Db
sent_db = record fresh_db { sends = record open_send { confirmed_sha256 = slack_digest } ∷ [] }

abbrev sent_row : Send
sent_row = record open_send { confirmed_sha256 = slack_digest }

abbrev created_row : Send
created_row = new_send 100 5 (claim_args 1 slack_draft slack_connection slack_digest)

abbrev created : SendOutcome
created = record {
  payload = send_payload 100 created_row false;
  status = 201;
  idempotent_replay = false;
}

abbrev created_db : Db
created_db = record fresh_db {
  sends = created_row ∷ [];
  jobs = (enqueue 100 5 no_jobs (send_job created_row (some "send:5"))).1;
}

goes_out : send_draft plain alone 100 5 fresh_db 9 1 (some slack_digest) ≡ ok (created, created_db)
unfolding send_draft get_draft decide draft_digest confirmation_digest payload load_send_by_key
    claim_send claim_tries insert_send after_claim new_send show
goes_out = refl

send_draft_created_example : IsConfirmed plain fresh_db 9 1 (some slack_digest)
send_draft_created_example =
    send_draft_created plain alone 100 5 fresh_db 9 1 (some slack_digest) created created_db
      goes_out refl

drafted : get_draft sent_db 9 1 ≡ some (slack_draft, slack_connection)
unfolding get_draft
drafted = refl

found_row : load_send_by_key sent_db.sends 1 "k-5" ≡ some sent_row
unfolding load_send_by_key
found_row = refl

-- another transaction claims the key between the gate's look at it and the INSERT
abbrev beaten : Interleaving
beaten = record alone { before = λ sends. sent_row ∷ [] }

abbrev beaten_outcome : SendOutcome
beaten_outcome = record {
  payload = send_payload 200 sent_row true;
  status = 200;
  idempotent_replay = true;
}

loses_race :
    send_draft plain beaten 200 6 fresh_db 9 1 (some slack_digest)
    ≡ ok (beaten_outcome, record fresh_db { sends = sent_row ∷ [] })
unfolding send_draft get_draft decide draft_digest confirmation_digest payload load_send_by_key
    claim_send claim_tries insert_send after_claim show answer_with replay
loses_race = refl

send_draft_answers_example :
    IsAnswered plain fresh_db 9 1
      (some slack_digest)
      beaten_outcome
      (record fresh_db { sends = sent_row ∷ [] })
send_draft_answers_example =
    send_draft_answers plain beaten 200 6 fresh_db 9 1 (some slack_digest) beaten_outcome
      (record fresh_db { sends = sent_row ∷ [] }) loses_race

abbrev args : ClaimArgs
args = claim_args 1 slack_draft slack_connection slack_digest

lost_race : claim_send alone 100 6 args sent_db.sends ≡ (claimed sent_row false, sent_db.sends)
unfolding claim_send claim_tries insert_send load_send_by_key
lost_race = refl

claim_send-load_example : load_send_by_key sent_db.sends 1 "k-5" ≡ some sent_row
claim_send-load_example =
    claim_send-load alone 100 6 args sent_db.sends sent_db.sends sent_row false lost_race

-- a failed send whose only job the sweeper resolved
abbrev resolved_job : Job
resolved_job = record waiting_job { state = succeeded }

abbrev resolved_jobs : Jobs
resolved_jobs = record { rows = resolved_job ∷ []; next_id = 2 }

abbrev failed_send : Send
failed_send = record open_send { state = failed_transient }

abbrev failed_db : Db
failed_db = record fresh_db { sends = failed_send ∷ []; jobs = resolved_jobs }

resolved_jobs-IsConsistent : IsConsistent resolved_jobs
resolved_jobs-IsConsistent = record {
  fresh = λ x m. elim m [ inl e ↦ rw e (omega arith) | inr z ↦ absurd z ];
  distinct = (λ y m. absurd m, tt);
  bounded = λ x m. elim m [ inl e ↦ rw e (omega arith) | inr z ↦ absurd z ];
  leased = λ x m. elim m [ inl e ↦ rw e refl | inr z ↦ absurd z ];
  partition_uniq = λ x y k mx my rx ry ex ey. elim mx [
    | inl e ↦ elim my [ inl d ↦ rw (e, d) refl | inr z ↦ absurd z ]
    | inr z ↦ absurd z
  ];
  dedupe_uniq = λ x y k mx my rx ry ex ey. elim mx [
    | inl e ↦ elim my [ inl d ↦ rw (e, d) refl | inr z ↦ absurd z ]
    | inr z ↦ absurd z
  ];
}

newest_resolved : latest_job resolved_jobs.rows 5 ≡ some resolved_job
unfolding latest_job newest
newest_resolved = refl

own_failed : load_own_send failed_db.sends 5 1 ≡ some failed_send
unfolding load_own_send
own_failed = refl

retry_leaves_jobs_example :
    (payload : SendPayload) × (db' : Db) × (operator_retry 300 failed_db 5 1 ≡ ok (payload, db'))
    × IsNow db' 5 1 payload
    × (db'.jobs ≡ failed_db.jobs)
retry_leaves_jobs_example =
    retry_leaves_jobs 300 failed_db 5 1 failed_send resolved_job own_failed (inl refl)
      resolved_jobs-IsConsistent newest_resolved refl

-- a send in doubt whose only job succeeded, and what a forced resend leaves of it
abbrev doubtful : Send
doubtful = record open_send { state = uncertain; dispatched_at = some 60; reconcile_attempts = 3 }

abbrev doubtful_db : Db
doubtful_db = record fresh_db { sends = doubtful ∷ []; jobs = resolved_jobs }

abbrev resent : Send
resent = set_resend 300 doubtful

abbrev resent_db : Db
resent_db = record doubtful_db {
  sends = resent ∷ [];
  jobs = (enqueue 300 5 resolved_jobs (send_job doubtful none)).1;
  resolutions =
      record {
        send_id = 5;
        user_id = 1;
        resolution = "forced_resend";
        note = none;
        created_at = 300;
      }
      ∷ [];
}

resends :
    resolve_send 300 doubtful_db 5 1 "forced_resend" none
    ≡ ok (send_payload 300 resent false, resent_db)
unfolding resolve_send settle_send load_own_send update_send answer resume_else_book latest_job
    newest Queue.operator_retry
resends = refl

resend_has_job_example : IsResent 5 1 (send_payload 300 resent false) resent_db
resend_has_job_example =
    resend_has_job 300 doubtful_db 5 1 none (send_payload 300 resent false) resent_db
      resolved_jobs-IsConsistent resends

send_draft_twice_example :
    (again : SendOutcome) × (send_draft plain alone 200 6 created_db 9 1 (some slack_digest)
      ≡ ok (again, created_db))
    × (again.payload.send_id ≡ created.payload.send_id)
    × (again.status ≡ 200)
    × (again.idempotent_replay ≡ true)
send_draft_twice_example =
    send_draft_twice plain alone alone 100 5 200 6 fresh_db 9 1 (some slack_digest) created
      created_db goes_out refl
