-- ===== src/Jobs/Runtime.antt =====
-- `run_once` and `_execute` of packages/core/jobs/runtime.py. `W` is what the handlers read and write;
-- a handler answers with what it left there and how it ended: an `Exception`, also one of its deadline
-- or of the commit of its success, is classified, and any other BaseException, such as InjectedCrash,
-- escapes. `breaks` says for which jobs the bookkeeping of a failure raises, which escapes too. The
-- jobs of a batch run concurrently; here one after another, in the order of the batch.
pub mod Settles
pub mod Released
use unified_search_safe_send.Prelude.{
  ℕ, suc, Bool, true, false, Option, none, some, List, [], ◌∷◌, String, map, length, if◌then◌else◌,
}
use unified_search_safe_send.Prelude.Text.{◌<>◌}
use unified_search_safe_send.Enums.{JobKind, JobState, ErrorClass, config}
use unified_search_safe_send.Errors.{Exn, provider_error, classify, str}
use unified_search_safe_send.Jobs.Table.{Jobs, ClaimedJob}
use unified_search_safe_send.Jobs.Queue.{FailOutcome, succeed, fail}
use unified_search_safe_send.Jobs.Claim.{claim}
use unified_search_safe_send.Jobs.Sweep.{kind_repr}

pub record RunReport : Type 0 where
  pub claimed : ℕ
  pub succeeded : ℕ
  pub retried : ℕ
  pub failed : ℕ
  pub parked : ℕ
  pub job_ids : List ℕ

pub data HandlerEnd : Type 0 where
  returned : HandlerEnd
  raised : Exn → HandlerEnd
  escaped : HandlerEnd

-- the word that `_execute` answers with, or `broken` where it raises
pub data Execution : Type 0 where
  succeeded retried parked failed lost broken : Execution

abbrev pub did_break : Execution → Bool
did_break Execution.broken = true
did_break _ = false

pub record Step (W : Type 0) : Type 0 where
  pub jobs : Jobs
  pub world : W

abbrev pub retry_after_of : Exn → Option ℕ
retry_after_of (provider_error e) = e.retry_after
retry_after_of _ = none

abbrev pub execution_of : JobState → Execution
execution_of JobState.ready = Execution.retried
execution_of JobState.parked = Execution.parked
execution_of _ = Execution.failed

abbrev pub count : Execution → RunReport → RunReport
count Execution.succeeded r = record r { succeeded = suc r.succeeded }
count Execution.retried r = record r { retried = suc r.retried }
count Execution.parked r = record r { parked = suc r.parked }
count Execution.failed r = record r { failed = suc r.failed }
count Execution.lost r = record r { failed = suc r.failed }
count Execution.broken r = record r { failed = suc r.failed }

-- `format` is the traceback of an exception that is not a provider's, and `uniform` the generator
module _ {W : Type 0} (handlers : JobKind → Option (W → ClaimedJob → HandlerEnd × W))
    (breaks : ClaimedJob → Bool) (uniform : ℕ → ℕ → ℕ) (format : Exn → String) (now : ℕ)
    (worker : String) where
  abbrev pub detail : Exn → String
  detail (provider_error e) = str (provider_error e)
  detail e = format e

  -- the job's failure, where it can be written; the table is left alone where not
  unfoldable pub fail_job : ClaimedJob → ErrorClass → String → Option ℕ → Jobs → Execution × Jobs
  fail_job job error_class text retry_after jobs =
      let (outcome, after) = fail uniform now jobs job worker error_class text retry_after in
      if breaks job then (Execution.broken, jobs) else (execution_of outcome.state, after)

  unfoldable pub settle : ClaimedJob → Step W → HandlerEnd → Execution × Step W
  settle job s returned =
      let (applied, jobs) = succeed now s.jobs job.id worker in
      (if applied then Execution.succeeded else Execution.lost, record s { jobs = jobs })
  settle job s (raised e) =
      let (execution, jobs) = fail_job job (classify e) (detail e) (retry_after_of e) s.jobs in
      (execution, record s { jobs = jobs })
  settle job s escaped = (Execution.broken, s)

  unfoldable pub execute : ClaimedJob → Step W → Execution × Step W
  execute job s = elim (handlers job.kind) [
    | none ↦
        let (execution, jobs) =
          fail_job job config ("no handler registered for job kind " <> kind_repr job.kind) none
            s.jobs in
        (
          if did_break execution then Execution.broken else Execution.failed,
          record s { jobs = jobs },
        )
    | some handler ↦
        let (end, world) = handler s.world job in settle job (record s { world = world }) end
  ]

  -- the outcomes in the order of the batch
  unfoldable pub execute_all : List ClaimedJob → Step W → List Execution × Step W
  execute_all [] s = ([], s)
  execute_all (job ∷ jobs) s =
      let (execution, next) = execute job s in
      let (executions, last) = execute_all jobs next in (execution ∷ executions, last)

  abbrev pub count_all : List Execution → RunReport → RunReport
  count_all [] report = report
  count_all (execution ∷ executions) report = count_all executions (count execution report)

  abbrev pub opening_report : List ClaimedJob → RunReport
  opening_report jobs = record {
    claimed = length jobs;
    succeeded = 0;
    retried = 0;
    failed = 0;
    parked = 0;
    job_ids = map (λ job. job.id) jobs;
  }

  unfoldable pub run_once : (ℕ → Bool) → ℕ → ℕ → Option ℕ → Step W → RunReport × Step W
  run_once locked limit lease_seconds send_lease_seconds s =
      let (jobs, claimed) = claim now locked s.jobs worker limit lease_seconds send_lease_seconds in
      let (executions, after) = execute_all jobs (record s { jobs = claimed }) in
      (count_all executions (opening_report jobs), after)
