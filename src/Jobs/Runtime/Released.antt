-- ===== src/Jobs/Runtime/Released.antt =====
-- What a pass of the worker leaves of the jobs that it claimed.
use mathlib.Core.Path.{subst}
use unified_search_safe_send.Prelude.{
  sym, ◌==◌, ==_iff, ℕ, suc, ◌+◌, ◌≡◌, refl, ◌∙◌, ◌⊎◌, inl, inr, Bool, true, false, Option, none,
  List, [], ◌∷◌, String, arith, Bool-cases, Option-cases, if◌then◌else◌, In, length,
}
use unified_search_safe_send.Enums.{JobKind, ErrorClass, config}
use unified_search_safe_send.Errors.{Exn, classify}
use unified_search_safe_send.Jobs.Table.{Job, Jobs, ClaimedJob}
use unified_search_safe_send.Jobs.Queue.{succeed, fail, fail_plan, set_succeeded}
use unified_search_safe_send.Jobs.Queue.Consistent.{IsConsistent}
use unified_search_safe_send.Jobs.Queue.Preserved.{endings-IsConsistent}
use unified_search_safe_send.Jobs.Claim.{claim}
use unified_search_safe_send.Jobs.Claim.Safety.{claim-IsConsistent}
use unified_search_safe_send.Prelude.Text.{◌<>◌}
use unified_search_safe_send.Jobs.Sweep.{kind_repr}
use unified_search_safe_send.Jobs.Runtime.{
  RunReport, HandlerEnd, returned, raised, Execution, Step, count, detail, retry_after_of, fail_job,
  settle, execute, execute_all, count_all, opening_report, run_once, did_break, escaped,
}
use unified_search_safe_send.Jobs.Runtime.Settles.{
  IsReleased, Ends, plan-Ends, execution_of-ends, Settles, broken-Settles, ending-Settles,
}

-- the job and how its execution ended, in one place of the batch
abbrev pub EndedAs : List ClaimedJob → List Execution → ClaimedJob → Execution → Type 0
EndedAs [] executions job e = ⊥
EndedAs (j ∷ jobs) [] job e = ⊥
EndedAs (j ∷ jobs) (x ∷ executions) job e = ((job ≡ j) × (e ≡ x)) ⊎ EndedAs jobs executions job e

module _ {W : Type 0} (handlers : JobKind → Option (W → ClaimedJob → HandlerEnd × W))
    (breaks : ClaimedJob → Bool) (uniform : ℕ → ℕ → ℕ) (format : Exn → String) (now : ℕ)
    (worker : String) where
  succeed-Settles :
      (t : Jobs) (job : ClaimedJob) (e : Execution)
      → did_break e ≡ false
      → Settles worker job.id e t (succeed now t job.id worker).1
  unfolding succeed Ends
  succeed-Settles t job e whole =
      ending-Settles worker job.id t (set_succeeded now) e (λ x. refl) whole
        (λ c. (endings-IsConsistent now t c uniform job worker config "" none).0)

  fail_job-Settles :
      (t : Jobs) (job : ClaimedJob) (e : ErrorClass) (text : String) (retry_after : Option ℕ)
      → Settles worker job.id
          (fail_job handlers breaks uniform format now worker job e text retry_after t).0
          t
          (fail_job handlers breaks uniform format now worker job e text retry_after t).1
  unfolding fail_job fail
  fail_job-Settles t job e text retry_after = elim (Bool-cases (breaks job)) [
    | inl b ↦ rw b (broken-Settles worker job.id t)
    | inr b ↦ rw b (
        ending-Settles worker job.id t (fail_plan uniform now job e text retry_after).2 _
          (plan-Ends uniform now job e text retry_after) (execution_of-ends _)
          (λ c. (endings-IsConsistent now t c uniform job worker e text retry_after).1))
  ]

  settle-Settles :
      (job : ClaimedJob) (s : Step W) (end : HandlerEnd)
      → Settles worker job.id
          (settle handlers breaks uniform format now worker job s end).0
          s.jobs
          (settle handlers breaks uniform format now worker job s end).1.jobs
  unfolding settle
  settle-Settles job s returned =
      succeed-Settles s.jobs job _ (whole (succeed now s.jobs job.id worker).0)
    where
      whole :
          (applied : Bool)
          → did_break (if applied then Execution.succeeded else Execution.lost) ≡ false
      whole true = refl
      whole false = refl
  settle-Settles job s (raised e) =
      fail_job-Settles s.jobs job (classify e) (detail handlers breaks uniform format now worker e)
        (retry_after_of e)
  settle-Settles job s escaped = broken-Settles worker job.id s.jobs

  unhandled-Settles :
      (job : ClaimedJob) (e : Execution) (t after : Jobs)
      → Settles worker job.id e t after
      → Settles worker job.id (if did_break e then Execution.broken else Execution.failed) t after
  unhandled-Settles job e t after h = elim (Bool-cases (did_break e)) [
    | inl b ↦ rw b (record {
      own = λ x. cc (x);
      untouched = λ x. h.untouched b;
      others = h.others;
      elsewhere = h.elsewhere;
      consistent = h.consistent;
    })
    | inr b ↦ rw b (record {
      own = λ x. h.own b;
      untouched = λ x. cc (x);
      others = h.others;
      elsewhere = h.elsewhere;
      consistent = h.consistent;
    })
  ]

  execute-Settles :
      (job : ClaimedJob) (s : Step W)
      → Settles worker job.id
          (execute handlers breaks uniform format now worker job s).0
          s.jobs
          (execute handlers breaks uniform format now worker job s).1.jobs
  unfolding execute
  execute-Settles job s = elim (Option-cases (handlers job.kind)) [
    | inl e ↦
        rw (e, execute)
          (unhandled-Settles job _ s.jobs _ (
            fail_job-Settles s.jobs job config
              ("no handler registered for job kind " <> kind_repr job.kind) none))
    | inr (handler, e) ↦
        rw (e, execute)
          (settle-Settles job (record s { world = (handler s.world job).1 })
            (handler s.world job).0)
  ]

  -- what a batch does to the table
  record Settled (jobs : List ClaimedJob) (executions : List Execution) (before after : Jobs)
      : Type 0 where
    kept : (id : ℕ) → IsReleased worker before id → IsReleased worker after id
    done :
        (job : ClaimedJob) (e : Execution)
        → EndedAs jobs executions job e
        → did_break e ≡ false
        → IsReleased worker after job.id
    left :
        (x : Job)
        → In x before.rows
        → ((job : ClaimedJob) (e : Execution)
            → EndedAs jobs executions job e
            → job.id ≡ x.id
            → did_break e ≡ true)
        → In x after.rows
    consistent : IsConsistent before → IsConsistent after

  all-Settled :
      (jobs : List ClaimedJob) (s : Step W)
      → Settled jobs
          (execute_all handlers breaks uniform format now worker jobs s).0
          s.jobs
          (execute_all handlers breaks uniform format now worker jobs s).1.jobs
  unfolding execute_all
  all-Settled [] s = record {
    kept = λ id h. h;
    done = λ job e m. absurd m;
    left = λ x m h. m;
    consistent = λ c. c;
  }
  all-Settled (job ∷ jobs) s =
      let first = execute-Settles job s in
      let next = (execute handlers breaks uniform format now worker job s).1 in
      let rest = all-Settled jobs next in
      record {
        kept = λ id h. rest.kept id (first.others id h);
        done = λ other e m w. elim m [
          | inl (p, q) ↦
              subst
                (λ (j : ClaimedJob).
                  IsReleased worker
                    (execute_all handlers breaks uniform format now worker jobs next).1.jobs j.id)
                (sym p) (rest.kept job.id (first.own (subst (λ x. did_break x ≡ false) q w)))
          | inr k ↦ rest.done other e k w
        ];
        left = λ x m h.
            rest.left x
              (elim (Bool-cases (x.id == job.id)) [
                | inl same ↦
                    subst (λ (t : Jobs). In x t.rows)
                      (sym (
                        first.untouched
                          (h job _ (inl (refl, refl)) (sym ((==_iff x.id job.id).0 same)))))
                      m
                | inr other ↦ first.elsewhere x m (ground (arith, other))
              ])
              (λ j e k. h j e (inr k));
        consistent = λ c. rest.consistent (first.consistent c);
      }

  counted : RunReport → ℕ
  counted r = r.succeeded + (r.retried + (r.failed + r.parked))

  count-counted : (e : Execution) (r : RunReport) → counted (count e r) ≡ suc (counted r)
  unfolding counted
  count-counted Execution.succeeded r = omega arith
  count-counted Execution.retried r = omega arith
  count-counted Execution.parked r = omega arith
  count-counted Execution.failed r = omega arith
  count-counted Execution.lost r = omega arith
  count-counted Execution.broken r = omega arith

  all-counted :
      (jobs : List ClaimedJob) (report : RunReport) (s : Step W)
      → counted (
          count_all handlers breaks uniform format now worker
            (execute_all handlers breaks uniform format now worker jobs s).0
            report)
        ≡ length jobs + counted report
  unfolding execute_all
  all-counted [] report s = omega arith
  all-counted (job ∷ jobs) report s =
      all-counted jobs (count (execute handlers breaks uniform format now worker job s).0 report)
        (execute handlers breaks uniform format now worker job s).1
      ∙ omega
          (arith, count-counted (execute handlers breaks uniform format now worker job s).0 report)

  all-claimed :
      (executions : List Execution) (report : RunReport)
      → (count_all handlers breaks uniform format now worker executions report).claimed
        ≡ report.claimed
  all-claimed [] report = refl
  all-claimed (e ∷ executions) report =
      all-claimed executions (count e report) ∙ count-claimed e report
    where
      count-claimed : (e : Execution) (r : RunReport) → (count e r).claimed ≡ r.claimed
      count-claimed Execution.succeeded r = refl
      count-claimed Execution.retried r = refl
      count-claimed Execution.parked r = refl
      count-claimed Execution.failed r = refl
      count-claimed Execution.lost r = refl
      count-claimed Execution.broken r = refl

  -- A pass of the worker, however its handlers end: it keeps the constraints of a jobs table that
  -- satisfies them; a claimed job has left the worker's lease unless its execution broke, by a
  -- BaseException or by a failure that could not be written; a leased row whose executions all broke is
  -- as the claim left it; and the report counts each claimed job once as
  -- succeeded, retried, failed or parked.
  pub run_once-releases :
      (locked : ℕ → Bool) (limit lease_seconds : ℕ) (send_lease_seconds : Option ℕ) (s : Step W)
      → IsConsistent s.jobs
      → let after =
          run_once handlers breaks uniform format now worker locked limit lease_seconds
            send_lease_seconds s in
        let (jobs, claimed) =
          claim now locked s.jobs worker limit lease_seconds send_lease_seconds in
        let executions =
          (execute_all handlers breaks uniform format now worker jobs
            (record s { jobs = claimed })).0 in
        IsConsistent after.1.jobs
        × ((job : ClaimedJob) (e : Execution)
            → EndedAs jobs executions job e
            → did_break e ≡ false
            → IsReleased worker after.1.jobs job.id)
        × ((x : Job)
            → In x claimed.rows
            → ((job : ClaimedJob) (e : Execution)
                → EndedAs jobs executions job e
                → job.id ≡ x.id
                → did_break e ≡ true)
            → In x after.1.jobs.rows)
        × (after.0.claimed ≡ length jobs)
        × (after.0.succeeded + (after.0.retried + (after.0.failed + after.0.parked)) ≡ length jobs)
  unfolding run_once counted
  run_once-releases locked limit lease_seconds send_lease_seconds s c =
      let jobs = (claim now locked s.jobs worker limit lease_seconds send_lease_seconds).0 in
      let leased = record s {
        jobs = (claim now locked s.jobs worker limit lease_seconds send_lease_seconds).1;
      } in
      let report = opening_report handlers breaks uniform format now worker jobs in
      let settled = all-Settled jobs leased in
      (
        settled.consistent
            (claim-IsConsistent now locked s.jobs worker limit lease_seconds send_lease_seconds c),
        settled.done,
        settled.left,
        all-claimed (execute_all handlers breaks uniform format now worker jobs leased).0 report,
        all-counted jobs report leased ∙ omega arith,
      )
