-- ===== src/Send/Service/Operator/Work.antt =====
-- What the operator's actions leave for the workers.
use mathlib.Core.Path.{subst}
use unified_search_safe_send.Prelude.{
  ℕ, ◌≡◌, ◌⊎◌, refl, sym, ap, true, false, Option, none, some, [], ◌∷◌, String, arith, In,
  update-In, first_where-In, ◌==◌, ◌&&◌, ◌∙◌, ◌++◌, String, exists_where, exists_where-find,
  In-last, update_where, Bool-cases, Option-cases, inl, inr,
}
use unified_search_safe_send.Enums.{failed_permanent, failed_transient}
use unified_search_safe_send.Jobs.Table.{Job, Jobs, is_ready, is_resumable}
use unified_search_safe_send.Jobs.Queue.{
  enqueue, new_job, resumable_row, set_resumed, clashes, live_duplicate,
}
use unified_search_safe_send.Jobs.Queue
use unified_search_safe_send.Jobs.Queue.Consistent.{IsConsistent}
use unified_search_safe_send.Send.Row.{Send, update_send}
use unified_search_safe_send.Send.Service.{Gate, ok, Db, SendPayload, send_job}
use unified_search_safe_send.Send.Service.Operator.{
  load_own_send, is_send_job, latest_job, owned_by, set_reopened, resume_or_book, answer,
  retry_failed, retry_by_state, operator_retry, resume_else_book, settle_send, set_resend,
  unresolved, resolve_send, is_uncertain,
}
use unified_search_safe_send.Send.Service.Operator.Resumed.{
  latest_job-In, resume_idle, resume_or_book-idle,
}
use unified_search_safe_send.Send.Service.Operator.Passed.{own-update, IsNow, answer-IsNow}

-- A failed send whose newest job is neither parked nor failed, such as one that the sweeper resolved:
-- the operator's retry answers that the send is in flight, its row is in flight with no reconciliation
-- spent, and the jobs are as they were.
pub retry_leaves_jobs :
    (now : ℕ) (db : Db) (send_id user_id : ℕ) (row : Send) (j : Job)
    → load_own_send db.sends send_id user_id ≡ some row
    → (row.state ≡ failed_transient) ⊎ (row.state ≡ failed_permanent)
    → IsConsistent db.jobs
    → latest_job db.jobs.rows row.id ≡ some j
    → is_resumable j.state ≡ false
    → (payload : SendPayload) × (db' : Db) × (operator_retry now db send_id user_id
        ≡ ok (payload, db'))
      × IsNow db' send_id user_id payload
      × (db'.jobs ≡ db.jobs)
unfolding operator_retry retry_by_state retry_failed resume_or_book load_own_send
retry_leaves_jobs now db send_id user_id row j l f c latest stuck =
    let reopened = update_send row.id (owned_by user_id) (set_reopened now) db.sends in
    let after : Db = record db { sends = reopened } in
    let (id, user, found) =
      own-update db.sends send_id user_id row (owned_by user_id) (set_reopened now)
        (λ s. (refl, refl)) l mine in
    let (payload, told, is_now, _) =
      answer-IsNow now after row.id user_id (set_reopened now row) found refl refl refl in
    (
      payload,
      after,
      rw (l, operator_retry) (elim f [ inl e ↦ rw e failed | inr e ↦ rw e failed ]) ∙ told,
      subst (λ k. IsNow after k user_id payload) id is_now,
      refl,
    )
  where
    mine : owned_by user_id row ≡ true
    mine =
        let (_, own) =
          first_where-In (λ s. s.id == send_id && s.user_id == user_id) db.sends row l in
        ground arith

    failed :
        retry_failed now db row user_id
        ≡ answer now
            (record db {
              sends = update_send row.id (owned_by user_id) (set_reopened now) db.sends;
            })
            row.id
            user_id
    failed =
        rw
          (
            resume_or_book-idle now db.settings_max_attempts db.jobs row j c latest stuck,
            retry_failed,
          )
          refl

-- a booked job is ready and is this send's
booked :
    (now limit : ℕ) (t : Jobs) (row : Send)
    → (j : Job) × In j (enqueue now limit t (send_job row none)).1.rows
      × (is_ready j.state ≡ true)
      × (is_send_job row.id j ≡ true)
unfolding enqueue
booked now limit t row = elim (Bool-cases (exists_where (live_duplicate none) t.rows)) [
  | inl e ↦
      let (x, mx, q) = exists_where-find (live_duplicate none) t.rows e in absurd (ground arith)
  | inr e ↦
      rw e (new_job now limit t.next_id (send_job row none), In-last t.rows _, refl, ground arith)
]

resumed_ready :
    (now : ℕ) (t after : Jobs) (row : Send) (j : Job)
    → IsConsistent t
    → latest_job t.rows row.id ≡ some j
    → Queue.operator_retry now t j.id 1 ≡ some (true, after)
    → (k : Job) × In k after.rows × (is_ready k.state ≡ true) × (is_send_job row.id k ≡ true)
unfolding Queue.operator_retry
resumed_ready now t after row j c latest h =
    let (m, q) = latest_job-In t.rows row.id j latest in
    elim (Bool-cases (exists_where (clashes j.id t.rows) t.rows)) [
      | inl e ↦ absurd (ground (arith, e, h))
      | inr e ↦ elim (Bool-cases (resumable_row j.id j)) [
        | inl r ↦
            let rows : after.rows ≡ update_where (resumable_row j.id) (set_resumed now 1) t.rows =
              ground (arith, e, h) in
            (
              set_resumed now 1 j,
              rw rows (rw r at (update-In (resumable_row j.id) (set_resumed now 1) t.rows j m)),
              refl,
              q,
            )
        | inr r ↦
            let idle = resume_idle now 1 t j c m (ground (arith, r)) in
            absurd (ground (arith, h, idle))
      ]
    ]

resume_has_job :
    (now limit : ℕ) (t after : Jobs) (row : Send)
    → IsConsistent t
    → resume_else_book now limit t row ≡ some after
    → (j : Job) × In j after.rows × (is_ready j.state ≡ true) × (is_send_job row.id j ≡ true)
unfolding resume_else_book
resume_has_job now limit t after row c h = elim (Option-cases (latest_job t.rows row.id)) [
  | inl e ↦
      let q : (enqueue now limit t (send_job row none)).1 ≡ after = ground (arith, e, h) in
      rw q at (booked now limit t row)
  | inr (j, e) ↦ elim (Option-cases (Queue.operator_retry now t j.id 1)) [
    | inl r ↦ absurd (ground (arith, e, r, h))
    | inr ((true, u), r) ↦
        let q : u ≡ after = ground (arith, e, r, h) in
        resumed_ready now t after row j c e (rw q at r)
    | inr ((false, u), r) ↦
        let q : (enqueue now limit u (send_job row none)).1 ≡ after = ground (arith, e, r, h) in
        rw q at (booked now limit u row)
  ]
]

-- the work and the row that a forced resend leaves
abbrev pub IsResent : ℕ → ℕ → SendPayload → Db → Type 0
IsResent send_id user_id payload db' =
    ((now_is : IsNow db' send_id user_id payload) × (now_is.row.dispatched_at ≡ none))
    × ((j : Job) × In j db'.jobs.rows × (is_ready j.state ≡ true) × (is_send_job send_id j ≡ true))

settle-IsResent :
    (now : ℕ) (db : Db) (send_id user_id : ℕ) (row : Send) (payload : SendPayload) (db' : Db)
    → IsConsistent db.jobs
    → load_own_send db.sends send_id user_id ≡ some row
    → is_uncertain row.state ≡ true
    → settle_send now db row user_id "forced_resend" ≡ ok (payload, db')
    → IsResent send_id user_id payload db'
unfolding settle_send load_own_send
settle-IsResent now db send_id user_id row payload db' c l u h =
    elim (Option-cases (resume_else_book now db.settings_max_attempts db.jobs row)) [
      | inl e ↦ absurd (ground (arith, e, h))
      | inr (jobs, e) ↦
          let (id, user, found) =
            own-update db.sends send_id user_id row (unresolved user_id) (set_resend now)
              (λ s. (refl, refl)) l mine in
          let after : Db = record db {
            sends = update_send row.id (unresolved user_id) (set_resend now) db.sends;
            jobs = jobs;
          } in
          let (payload', told, is_now, same) =
            answer-IsNow now after row.id user_id (set_resend now row) found refl refl refl in
          let q : Gate.ok (payload', after) ≡ Gate.ok (payload, db') =
            sym told ∙ ground (arith, e, h) in
          let r : (payload', after) ≡ (payload, db') = cc in
          let (j, mj, ready, own) =
            resume_has_job now db.settings_max_attempts db.jobs jobs row c e in
          subst (λ (x : SendPayload × Db). IsResent send_id user_id x.0 x.1) r
            (subst (λ k. IsResent k user_id payload' after) id
              ((is_now, ap (λ (s : Send). s.dispatched_at) same), (j, mj, ready, own)))
    ]
  where
    mine : unresolved user_id row ≡ true
    mine =
        let (_, own) =
          first_where-In (λ s. s.id == send_id && s.user_id == user_id) db.sends row l in
        ground (arith, u)

-- A forced resend of an uncertain send that goes through, with consistent jobs: the answer says that the
-- send is in flight, its row is in flight with no reconciliation spent and no dispatch
-- recorded, and there is a ready job of the send, whatever its newest job was.
pub resend_has_job :
    (now : ℕ) (db : Db) (send_id user_id : ℕ) (note : Option String) (payload : SendPayload)
    (db' : Db)
    → IsConsistent db.jobs
    → resolve_send now db send_id user_id "forced_resend" note ≡ ok (payload, db')
    → IsResent send_id user_id payload db'
unfolding resolve_send
resend_has_job now db send_id user_id note payload db' c h =
    elim (Option-cases (load_own_send db.sends send_id user_id)) [
      | inl e ↦ absurd (ground (arith, e, h))
      | inr (row, e) ↦ elim (Bool-cases (is_uncertain row.state)) [
        | inr u ↦ absurd (ground (arith, e, u, h))
        | inl u ↦
            settle-IsResent now
              (record db {
                resolutions =
                    db.resolutions
                    ++ record {
                      send_id = send_id;
                      user_id = user_id;
                      resolution = "forced_resend";
                      note = note;
                      created_at = now;
                    }
                      ∷ [];
              })
              send_id user_id row payload db' c e u (ground (arith, e, u, h))
      ]
    ]
