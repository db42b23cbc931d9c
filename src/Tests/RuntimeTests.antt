-- ===== src/Tests/RuntimeTests.antt =====
-- A pass of the worker over the table of JobsTests.
use unified_search_safe_send.Prelude.{
  ℕ, ◌+◌, ◌≡◌, Bool, false, true, Option, none, some, In, length,
}
use unified_search_safe_send.Enums.{JobKind, adapter_run, send}
use unified_search_safe_send.Errors.{str}
use unified_search_safe_send.Jobs.Table.{Job, ClaimedJob}
use unified_search_safe_send.Jobs.Queue.Consistent.{IsConsistent}
use unified_search_safe_send.Jobs.Claim.{claim}
use unified_search_safe_send.Jobs.Runtime.{
  HandlerEnd, escaped, Step, Execution, did_break, execute_all, run_once,
}
use unified_search_safe_send.Jobs.Runtime.Settles.{IsReleased}
use unified_search_safe_send.Jobs.Runtime.Released.{EndedAs, run_once-releases}
use unified_search_safe_send.Tests.JobsTests.{table, nobody, lowest, table-IsConsistent}

-- a send handler that a crash ends, and no other
abbrev handlers : JobKind → Option (ℕ → ClaimedJob → HandlerEnd × ℕ)
handlers send = some (λ n job. (escaped, n + 1))
handlers adapter_run = none

abbrev writable : ClaimedJob → Bool
writable job = false

abbrev before : Step ℕ
before = record { jobs = table; world = 0 }

run_once-releases_example :
    let after = run_once handlers writable lowest str 100 "w2" nobody 5 60 none before in
    let (jobs, claimed) = claim 100 nobody table "w2" 5 60 none in
    let executions =
      (execute_all handlers writable lowest str 100 "w2" jobs
        (record before { jobs = claimed })).0 in
    IsConsistent after.1.jobs
    × ((job : ClaimedJob) (e : Execution)
        → EndedAs jobs executions job e
        → did_break e ≡ false
        → IsReleased "w2" after.1.jobs job.id)
    × ((x : Job)
        → In x claimed.rows
        → ((job : ClaimedJob) (e : Execution)
            → EndedAs jobs executions job e
            → job.id ≡ x.id
            → did_break e ≡ true)
        → In x after.1.jobs.rows)
    × (after.0.claimed ≡ length jobs)
    × (after.0.succeeded + (after.0.retried + (after.0.failed + after.0.parked)) ≡ length jobs)
run_once-releases_example =
    run_once-releases handlers writable lowest str 100 "w2" nobody 5 60 none before
      table-IsConsistent
