-- ===== src/Send/Detail/Countdown.antt =====
-- The countdown that the detail view of a send shows.
use unified_search_safe_send.Prelude.{
  ℕ, ◌≡◌, ◌<◌, refl, inl, inr, true, Option, none, some, Bool-cases, arith, ltb,
}
use unified_search_safe_send.Jobs.Table.{Job, is_ready}
use unified_search_safe_send.Send.Row.{Send, Draft}
use unified_search_safe_send.Connections.Row.{Connection}
use unified_search_safe_send.Send.Service.{Db}
use unified_search_safe_send.Send.Service.Operator.{latest_job}
use unified_search_safe_send.Send.Detail.{is_waiting, waiting_job, next_attempt, detail_payload}

waiting_job-some :
    (now t : ℕ) (newest : Option Job)
    → next_attempt (waiting_job now newest) ≡ some t
    → (j : Job) × (newest ≡ some j) × (is_ready j.state ≡ true) × (j.run_at ≡ t) × (now < t)
unfolding waiting_job is_waiting
waiting_job-some now t none e = cc e
waiting_job-some now t (some j) e = elim (Bool-cases (is_ready j.state)) [
  | inr r ↦ cc (rw r at e)
  | inl r ↦ elim (Bool-cases (ltb now j.run_at)) [
    | inr l ↦ cc (rw (r, l) at e)
    | inl l ↦ let q : j.run_at ≡ t = cc (rw (r, l) at e) in (j, refl, r, q, ground (arith, l, q))
  ]
]

-- A next attempt that the detail view of a send shows is still ahead, and it is the time of the send's
-- newest job, which is ready.
pub detail-next_attempt :
    (now t : ℕ) (db : Db) (row : Send) (d : Draft) (c : Connection)
    → (detail_payload now db row d c).next_attempt_at ≡ some t
    → (j : Job) × (latest_job db.jobs.rows row.id ≡ some j)
      × (is_ready j.state ≡ true)
      × (j.run_at ≡ t)
      × (now < t)
unfolding detail_payload
detail-next_attempt now t db row d c e = waiting_job-some now t (latest_job db.jobs.rows row.id) e
