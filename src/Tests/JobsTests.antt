-- ===== src/Tests/JobsTests.antt =====
-- A jobs table with one ready and one running row, and the properties of the queue at it.
use unified_search_safe_send.Prelude.{
  String, eq_iff, ℕ, ◌≤◌, ◌≡◌, ◌≢◌, refl, Bool, true, false, none, some, [], ◌∷◌, arith, In, inl,
  inr, or_default, max, length,
}
use unified_search_safe_send.Enums.{JobState, adapter_run, send, ready, running, transient}
use unified_search_safe_send.Jobs.Backoff.{cap_seconds, full_jitter, IsUniform}
use unified_search_safe_send.Jobs.Backoff.Bounds.{full_jitter-bounds}
use unified_search_safe_send.Jobs.Table.{Job, Jobs, from_row}
use unified_search_safe_send.Jobs.Queue.{Enqueue, enqueue, succeed, fail, requeue, park, resolve}
use unified_search_safe_send.Jobs.Queue.Consistent.{IsConsistent}
use unified_search_safe_send.Jobs.Queue.Preserved.{endings-IsConsistent, sweeps-IsConsistent}
use unified_search_safe_send.Jobs.Queue.Entry.{enqueue-IsConsistent}
use unified_search_safe_send.Jobs.Claim.Lease.{IsEnded, claim_shuts_out, claim_then_ends}
use unified_search_safe_send.Jobs.Claim.{
  claim, set_claimed, candidates, sort_jobs, insert_job, distinct_on,
}
use unified_search_safe_send.Jobs.Claim.Leased.{IsEligible}
use unified_search_safe_send.Jobs.Claim.Ceiling.{requeued_at_ceiling}
use unified_search_safe_send.Jobs.Claim.Safety.{
  claim-IsConsistent, claim-IsEligible, length-claim-le,
}

abbrev pub waiting_job : Job
waiting_job = record {
  id = 1;
  kind = send;
  ref_id = 5;
  dedupe_key = some "send:5";
  partition_key = some "slack:7";
  state = ready;
  priority = 0;
  run_at = 40;
  attempts = 0;
  max_attempts = 5;
  backoff_seconds = none;
  claimed_at = none;
  claimed_by = none;
  lease_expires_at = none;
  started_at = none;
  finished_at = none;
  last_error_class = none;
  last_error_detail = none;
  last_error_at = none;
  created_at = 40;
  updated_at = 40;
}

abbrev pub running_job : Job
running_job = record waiting_job {
  id = 2;
  ref_id = 6;
  dedupe_key = none;
  partition_key = some "gmail:8";
  state = running;
  attempts = 5;
  claimed_at = some 50;
  claimed_by = some "w1";
  lease_expires_at = some 90;
}

abbrev pub table : Jobs
table = record { rows = waiting_job ∷ running_job ∷ []; next_id = 3 }

abbrev pub nobody : ℕ → Bool
nobody id = false

abbrev pub lowest : ℕ → ℕ → ℕ
lowest lo hi = lo

lowest-IsUniform : IsUniform lowest
lowest-IsUniform lo hi h = (omega arith, h)

pub table-IsConsistent : IsConsistent table
table-IsConsistent = record {
  fresh = λ x m. elim m [
    | inl e ↦ rw e (omega arith)
    | inr m' ↦ elim m' [ inl e ↦ rw e (omega arith) | inr z ↦ absurd z ]
  ];
  distinct =
      (λ y m. elim m [ inl e ↦ λ q. ground arith | inr z ↦ absurd z ], (λ y m. absurd m, tt));
  bounded = λ x m. elim m [
    | inl e ↦ rw e (omega arith)
    | inr m' ↦ elim m' [ inl e ↦ rw e (omega arith) | inr z ↦ absurd z ]
  ];
  leased = λ x m. elim m [
    | inl e ↦ rw e refl
    | inr m' ↦ elim m' [ inl e ↦ rw e refl | inr z ↦ absurd z ]
  ];
  partition_uniq = λ x y k mx my rx ry ex ey. elim mx [
    | inl e ↦ cc (rw e at rx)
    | inr mx' ↦ elim mx' [
      | inr z ↦ absurd z
      | inl e ↦ elim my [
        | inl d ↦ cc (rw d at ry)
        | inr my' ↦ elim my' [ inl d ↦ rw (e, d) refl | inr z ↦ absurd z ]
      ]
    ]
  ];
  dedupe_uniq = λ x y k mx my rx ry ex ey. elim mx [
    | inl e ↦ elim my [
      | inl d ↦ rw (e, d) refl
      | inr my' ↦ elim my' [ inl d ↦ cc (rw e at ex, rw d at ey) | inr z ↦ absurd z ]
    ]
    | inr mx' ↦ elim mx' [
      | inr z ↦ absurd z
      | inl e ↦ elim my [
        | inl d ↦ cc (rw e at ex, rw d at ey)
        | inr my' ↦ elim my' [ inl d ↦ rw (e, d) refl | inr z ↦ absurd z ]
      ]
    ]
  ];
}

claim-IsConsistent_example : IsConsistent (claim 100 nobody table "w2" 5 60 none).1
claim-IsConsistent_example = claim-IsConsistent 100 nobody table "w2" 5 60 none table-IsConsistent

abbrev leased_job : Job
leased_job = set_claimed 100 "w2" 60 60 waiting_job

claimed_waiting : In (from_row leased_job) (claim 100 nobody table "w2" 5 60 none).0
unfolding claim candidates sort_jobs insert_job distinct_on
claimed_waiting = inl refl

claim-IsEligible_example :
    (x : Job) × In x table.rows
    × IsEligible 100 nobody table.rows x
    × (from_row leased_job ≡ from_row (set_claimed 100 "w2" 60 (or_default none 60) x))
claim-IsEligible_example =
    claim-IsEligible 100 nobody table "w2" 5 60 none (from_row leased_job) table-IsConsistent
      claimed_waiting

length-claim-le_example : length (claim 100 nobody table "w2" 5 60 none).0 ≤ 5
length-claim-le_example = length-claim-le 100 nobody table "w2" 5 60 none table-IsConsistent

abbrev search_job : Enqueue
search_job = record {
  kind = adapter_run;
  ref_id = 7;
  dedupe_key = some "adapter:7";
  partition_key = none;
  priority = 10;
  run_at = none;
  max_attempts = none;
}

enqueue-IsConsistent_example : IsConsistent (enqueue 100 5 table search_job).1
enqueue-IsConsistent_example = enqueue-IsConsistent 100 5 table search_job table-IsConsistent

endings-IsConsistent_example :
    IsConsistent (succeed 100 table 2 "w1").1
    × IsConsistent (fail lowest 100 table (from_row running_job) "w1" transient "timeout" none).1
unfolding from_row
endings-IsConsistent_example =
    endings-IsConsistent 100 table table-IsConsistent lowest (from_row running_job) "w1" transient
      "timeout" none

sweeps-IsConsistent_example :
    IsConsistent (requeue 100 table 2).1
    × IsConsistent (park 100 table 2 "lease expired").1
    × IsConsistent (resolve 100 table 2).1
sweeps-IsConsistent_example = sweeps-IsConsistent 100 table table-IsConsistent 2 "lease expired"

other_worker : ◌≢◌ {A = String} "w1" "w2"
other_worker e = cc ((eq_iff "w1" "w2").1 e)

claim_shuts_out_example :
    let after = (claim 100 nobody table "w2" 5 60 none).1 in
    (succeed 120 after 1 "w1" ≡ (false, after))
    × ((fail lowest 120 after (from_row waiting_job) "w1" transient "timeout" none).0.applied
        ≡ false)
    × ((fail lowest 120 after (from_row waiting_job) "w1" transient "timeout" none).1 ≡ after)
unfolding from_row
claim_shuts_out_example =
    claim_shuts_out 100 nobody table "w2" 5 60 none table-IsConsistent (from_row leased_job) "w1"
      (from_row waiting_job) lowest 120 transient "timeout" none claimed_waiting other_worker refl

claim_then_ends_example :
    let after = (claim 100 nobody table "w2" 5 60 none).1 in
    let (applied, done) = succeed 120 after 1 "w2" in
    let (outcome, ended) =
      fail lowest 120 after (from_row leased_job) "w2" transient "timeout" none in
    (applied ≡ true)
    × IsEnded done (from_row leased_job) JobState.succeeded
    × (outcome.applied ≡ true)
    × IsEnded ended (from_row leased_job) outcome.state
unfolding from_row
claim_then_ends_example =
    claim_then_ends 100 nobody table "w2" 5 60 none table-IsConsistent (from_row leased_job) lowest
      120 transient "timeout" none claimed_waiting

full_jitter-bounds_example :
    (7000000 ≤ full_jitter lowest 3 (some 7000000))
    × (full_jitter lowest 3 (some 7000000) ≤ max cap_seconds 7000000)
full_jitter-bounds_example = full_jitter-bounds lowest 3 (some 7000000) lowest-IsUniform

claimed_after_requeue :
    In (from_row leased_job) (claim 100 nobody (requeue 95 table 2).1 "w2" 5 60 none).0
unfolding requeue claim candidates sort_jobs insert_job distinct_on
claimed_after_requeue = inl refl

requeued_at_ceiling_example : (from_row leased_job).id ≢ 2
requeued_at_ceiling_example =
    requeued_at_ceiling 95 100 nobody table running_job "w2" 5 60 none (from_row leased_job)
      table-IsConsistent (inr (inl refl)) refl (omega arith) claimed_after_requeue
