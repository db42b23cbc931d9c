-- ===== src/Jobs/Claim/Lease.antt =====
-- Who may end a job that was claimed: the worker that claimed it, and nobody else.
use unified_search_safe_send.Prelude.{
  ℕ, ◌≡◌, ◌≢◌, refl, sym, ap, ◌∙◌, Bool, true, false, Option, none, some, List, String, arith, In,
  In-map, In-where, In-update, update-In, Distinct-eq, Bool-cases, inl, inr, or_default,
  update_where, if◌then◌else◌, ◌==◌, ==_iff, eq_iff, leb,
}
use text.Mathlib.TextPositions.{eq_refl}
use unified_search_safe_send.Enums.{JobState, ErrorClass}
use unified_search_safe_send.Jobs.Table.{Job, Jobs, ClaimedJob, from_row, held_by, is_running}
use unified_search_safe_send.Jobs.Queue.{
  succeed, fail, fail_plan, set_succeeded, update_rows, is_transient,
}
use unified_search_safe_send.Jobs.Queue.Consistent.{IsConsistent}
use unified_search_safe_send.Jobs.Queue.Swap.{lost_lease, held_lease}
use unified_search_safe_send.Jobs.Claim.{claim, is_picked, picked_rows, set_claimed}
use unified_search_safe_send.Jobs.Claim.Safety.{claim-IsConsistent}

-- a change that ends a lease and keeps the job
record IsEnding (f : Job → Job) (state : JobState) : Type 0 where
  same_id : (x : Job) → (f x).id ≡ x.id
  ends : (x : Job) → (f x).state ≡ state
  unleased : (x : Job) → (f x).lease_expires_at ≡ none
  counted : (x : Job) → (f x).attempts ≡ x.attempts

plan-IsEnding :
    (uniform : ℕ → ℕ → ℕ) (now : ℕ) (job : ClaimedJob) (e : ErrorClass) (text : String)
    (retry_after : Option ℕ)
    → IsEnding
        (fail_plan uniform now job e text retry_after).2
        (fail_plan uniform now job e text retry_after).0
unfolding fail_plan
plan-IsEnding uniform now job e text retry_after = elim (Bool-cases (is_transient e)) [
  | inr t ↦
      rw t (record {
        same_id = λ x. refl;
        ends = λ x. refl;
        unleased = λ x. refl;
        counted = λ x. refl;
      })
  | inl t ↦ elim (Bool-cases (leb job.max_attempts job.attempts)) [
    | inl c ↦
        rw (t, c)
          (record {
            same_id = λ x. refl;
            ends = λ x. refl;
            unleased = λ x. refl;
            counted = λ x. refl;
          })
    | inr c ↦
        rw (t, c)
          (record {
            same_id = λ x. refl;
            ends = λ x. refl;
            unleased = λ x. refl;
            counted = λ x. refl;
          })
  ]
]

-- the row of the job in the table that the ending leaves
pub record IsEnded (after : Jobs) (j : ClaimedJob) (state : JobState) : Type 0 where
  pub row : Job
  pub member : In row after.rows
  pub own_id : row.id ≡ j.id
  pub state_is : row.state ≡ state
  pub unleased : row.lease_expires_at ≡ none
  pub attempts_kept : row.attempts ≡ j.attempts

module _ (now : ℕ) (locked : ℕ → Bool) (t : Jobs) (worker : String) (limit lease : ℕ)
    (send_lease : Option ℕ) (c : IsConsistent t) (j : ClaimedJob) where
  abbrev leased : Jobs
  leased = (claim now locked t worker limit lease send_lease).1

  -- the row behind a claimed job
  record IsLeased : Type 0 where
    row : Job
    member : In row leased.rows
    copy : j ≡ from_row row
    run : is_running row.state ≡ true
    owner : row.claimed_by ≡ some worker

  claimed-IsLeased : In j (claim now locked t worker limit lease send_lease).0 → IsLeased
  unfolding claim
  claimed-IsLeased h =
      let (y, my, e) = In-map from_row _ j h in
      let (m, p) = In-where (is_picked _) _ y my in
      let (x, mx, d) = In-update (is_picked _) _ t.rows y m in from y x m p e d
    where
      picked : List Job
      picked = picked_rows now locked limit t.rows

      lease_row : Job → Job
      lease_row = set_claimed now worker lease (or_default send_lease lease)

      from :
          (y x : Job)
          → In y (update_where (is_picked picked) lease_row t.rows)
          → is_picked picked y ≡ true
          → j ≡ from_row y
          → y ≡ (if is_picked picked x then lease_row x else x)
          → IsLeased
      from y x m p e d = elim (Bool-cases (is_picked picked x)) [
        | inr px ↦ cc (p, px, rw px at d)
        | inl px ↦
            let q : y ≡ lease_row x = rw px at d in
            record {
              row = y;
              member = m;
              copy = e;
              run = ap (λ (z : Job). is_running z.state) q;
              owner = ap (λ (z : Job). z.claimed_by) q;
            }
      ]

  leased-IsConsistent : IsConsistent leased
  leased-IsConsistent = claim-IsConsistent now locked t worker limit lease send_lease c

  -- the one row of the job's id
  same_row : (w : IsLeased) (x : Job) → In x leased.rows → x.id ≡ j.id → x ≡ w.row
  unfolding from_row
  same_row w x m e =
      Distinct-eq (λ y. y.id) leased.rows x w.row leased-IsConsistent.distinct m w.member
        (e ∙ ap (λ (k : ClaimedJob). k.id) w.copy)

  -- In the table that a claim leaves of a consistent one, a claimed job is its worker's own: any other
  -- worker, with whatever copy of the job, is told that neither its success nor its failure applied, and
  -- neither changes the table.
  pub claim_shuts_out :
      (former : String) (stale : ClaimedJob) (uniform : ℕ → ℕ → ℕ) (later : ℕ) (e : ErrorClass)
      (detail : String) (retry_after : Option ℕ)
      → In j (claim now locked t worker limit lease send_lease).0
      → former ≢ worker
      → stale.id ≡ j.id
      → let after = (claim now locked t worker limit lease send_lease).1 in
        (succeed later after stale.id former ≡ (false, after))
        × ((fail uniform later after stale former e detail retry_after).0.applied ≡ false)
        × ((fail uniform later after stale former e detail retry_after).1 ≡ after)
  claim_shuts_out former stale uniform later e detail retry_after h n same =
      lost_lease later leased stale former uniform e detail retry_after free
    where
      w : IsLeased
      w = claimed-IsLeased h

      free : (x : Job) → In x leased.rows → held_by stale.id former x ≡ false
      free x m = elim (Bool-cases (x.id == stale.id)) [
        | inr q ↦ rw q refl
        | inl q ↦
            let e : x ≡ w.row = same_row w x m ((==_iff x.id stale.id).0 q ∙ same) in
            let owner : x.claimed_by ≡ some worker = ap (λ (z : Job). z.claimed_by) e ∙ w.owner in
            ground (arith, owner, n, eq_iff worker former)
      ]

  own_row_after :
      (w : IsLeased) (f : Job → Job) (state : JobState)
      → IsEnding f state
      → IsEnded (update_rows (held_by j.id worker) f leased) j state
  unfolding from_row
  own_row_after w f state ending = record {
    row = f w.row;
    member = rw held at (update-In (held_by j.id worker) f leased.rows w.row w.member);
    own_id = ending.same_id w.row ∙ sym own;
    state_is = ending.ends w.row;
    unleased = ending.unleased w.row;
    attempts_kept = ending.counted w.row ∙ sym (ap (λ (k : ClaimedJob). k.attempts) w.copy);
  }
    where
      own : j.id ≡ w.row.id
      own = ap (λ (k : ClaimedJob). k.id) w.copy

      held : held_by j.id worker w.row ≡ true
      held = ground (arith, own, w.run, w.owner, eq_refl worker)

  -- The worker that claimed a job from a consistent table is told that its success and its failure apply;
  -- after its success the job's row is succeeded, after its failure it is in the state that the worker is
  -- told of, and in both cases it has no lease and the attempts that the worker was given.
  pub claim_then_ends :
      (uniform : ℕ → ℕ → ℕ) (later : ℕ) (e : ErrorClass) (detail : String) (retry_after : Option ℕ)
      → In j (claim now locked t worker limit lease send_lease).0
      → let after = (claim now locked t worker limit lease send_lease).1 in
        let (applied, done) = succeed later after j.id worker in
        let (outcome, ended) = fail uniform later after j worker e detail retry_after in
        (applied ≡ true)
        × IsEnded done j JobState.succeeded
        × (outcome.applied ≡ true)
        × IsEnded ended j outcome.state
  unfolding succeed fail from_row
  claim_then_ends uniform later e detail retry_after h =
      let w = claimed-IsLeased h in
      let own : j.id ≡ w.row.id = ap (λ (k : ClaimedJob). k.id) w.copy in
      let held : held_by j.id worker w.row ≡ true =
        ground (arith, own, w.run, w.owner, eq_refl worker) in
      let (applied, applied') =
        held_lease later leased j worker uniform e detail retry_after w.row leased-IsConsistent
          w.member held in
      (
        applied,
        own_row_after w (set_succeeded later) JobState.succeeded (record {
          same_id = λ x. refl;
          ends = λ x. refl;
          unleased = λ x. refl;
          counted = λ x. refl;
        }),
        applied',
        own_row_after w (fail_plan uniform later j e detail retry_after).2
            (fail_plan uniform later j e detail retry_after).0
            (plan-IsEnding uniform later j e detail retry_after),
      )
