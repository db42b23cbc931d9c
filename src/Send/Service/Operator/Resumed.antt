-- ===== src/Send/Service/Operator/Resumed.antt =====
-- The newest job of a send, and the resume of a job that cannot be resumed.
use unified_search_safe_send.Prelude.{
  ℕ, ◌≡◌, ◌⊎◌, refl, ap, true, false, Option, none, some, List, [], ◌∷◌, arith, In, In-where,
  update-none, exists_where, exists_where-find, Distinct-eq, Bool-cases, inl, inr, leb,
  if◌then◌else◌, where_,
}
use unified_search_safe_send.Jobs.Table.{Job, Jobs, is_resumable}
use unified_search_safe_send.Jobs.Queue.{
  enqueue, new_job, resumable_row, set_resumed, clashes, live_duplicate,
}
use unified_search_safe_send.Jobs.Queue
use unified_search_safe_send.Jobs.Queue.Consistent.{IsConsistent}
use unified_search_safe_send.Send.Row.{Send}
use unified_search_safe_send.Send.Service.Operator.{is_send_job, newest, latest_job, resume_or_book}

newest-In :
    (js : List Job) (best : Option Job) (j : Job)
    → newest js best ≡ some j
    → In j js ⊎ (best ≡ some j)
unfolding newest
newest-In [] best j h = inr h
newest-In (k ∷ ks) none j h = elim (newest-In ks (some k) j h) [
  | inl m ↦ inl (inr m)
  | inr e ↦ inl (inl cc)
]
newest-In (k ∷ ks) (some b) j h =
    elim (newest-In ks (if leb b.id k.id then some k else some b) j h) [
      | inl m ↦ inl (inr m)
      | inr e ↦ elim (Bool-cases (leb b.id k.id)) [
        | inl c ↦ inl (inl (let q : some k ≡ some j = rw c at e in cc))
        | inr c ↦ inr (rw c at e)
      ]
    ]

pub latest_job-In :
    (rows : List Job) (id : ℕ) (j : Job)
    → latest_job rows id ≡ some j
    → In j rows × (is_send_job id j ≡ true)
unfolding latest_job
latest_job-In rows id j h = elim (newest-In (where_ (is_send_job id) rows) none j h) [
  | inl m ↦ In-where (is_send_job id) rows j m
  | inr e ↦ cc
]

-- the only row of its id that a resume can change is the job itself
resumable_same :
    (t : Jobs) (j x : Job)
    → IsConsistent t
    → In j t.rows
    → In x t.rows
    → resumable_row j.id x ≡ true
    → x ≡ j
resumable_same t j x c mj mx h = Distinct-eq (λ y. y.id) t.rows x j c.distinct mx mj (ground arith)

pub resume_idle :
    (now grant : ℕ) (t : Jobs) (j : Job)
    → IsConsistent t
    → In j t.rows
    → is_resumable j.state ≡ false
    → Queue.operator_retry now t j.id grant ≡ some (false, t)
unfolding Queue.operator_retry
resume_idle now grant t j c m stuck =
    let (same, zero_rows) = update-none (resumable_row j.id) (set_resumed now grant) t.rows idle in
    rw (no_clash, same, zero_rows) refl
  where
    idle : (x : Job) → In x t.rows → resumable_row j.id x ≡ false
    idle x mx = elim (Bool-cases (resumable_row j.id x)) [
      | inr e ↦ e
      | inl e ↦
          let same : x ≡ j = resumable_same t j x c m mx e in
          let r : is_resumable x.state ≡ true = ground arith in
          cc (ap (λ (y : Job). is_resumable y.state) same)
    ]

    no_clash : exists_where (clashes j.id t.rows) t.rows ≡ false
    no_clash = elim (Bool-cases (exists_where (clashes j.id t.rows) t.rows)) [
      | inr e ↦ e
      | inl e ↦
          let (x, mx, q) = exists_where-find (clashes j.id t.rows) t.rows e in
          absurd (ground (arith, q, idle x mx))
    ]

pub resume_or_book-idle :
    (now limit : ℕ) (t : Jobs) (row : Send) (j : Job)
    → IsConsistent t
    → latest_job t.rows row.id ≡ some j
    → is_resumable j.state ≡ false
    → resume_or_book now limit t row ≡ some t
unfolding resume_or_book
resume_or_book-idle now limit t row j c latest stuck =
    rw (latest, resume_or_book)
      (rw (resume_idle now 1 t j c (latest_job-In t.rows row.id j latest).0 stuck, resume_or_book)
        refl)
