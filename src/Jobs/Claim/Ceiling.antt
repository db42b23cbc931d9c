-- ===== src/Jobs/Claim/Ceiling.antt =====
-- What the attempt ceiling means to the claim, after the sweeper's requeue.
use unified_search_safe_send.Prelude.{
  ℕ, ◌≤◌, ◌≡◌, ◌≢◌, refl, sym, ap, ◌∙◌, Bool, true, Option, String, arith, In, update-In,
  Distinct-eq, or_default,
}
use unified_search_safe_send.Jobs.Table.{Job, Jobs, ClaimedJob, from_row, is_running, running_row}
use unified_search_safe_send.Jobs.Queue.{requeue, set_requeued}
use unified_search_safe_send.Jobs.Queue.Consistent.{IsConsistent}
use unified_search_safe_send.Jobs.Queue.Preserved.{sweeps-IsConsistent}
use unified_search_safe_send.Jobs.Claim.{claim, set_claimed}
use unified_search_safe_send.Jobs.Claim.Safety.{claim-IsEligible}

claimed_id :
    (x : Job) (now lease send_lease : ℕ) (w : String)
    → (from_row (set_claimed now w lease send_lease x)).id ≡ x.id
unfolding from_row
claimed_id x now lease send_lease w = refl

requeued_row :
    (now : ℕ) (t : Jobs) (x : Job)
    → In x t.rows
    → is_running x.state ≡ true
    → In (set_requeued now x) (requeue now t x.id).1.rows
unfolding requeue
requeued_row now t x m run =
    let matches : running_row x.id x ≡ true = ground arith in
    rw matches at (update-In (running_row x.id) (set_requeued now) t.rows x m)

-- An orphaned row that is at its attempt ceiling and that the sweeper requeues: no claim from the
-- table that the requeue leaves returns it, at whatever time, for whatever worker and limit.
pub requeued_at_ceiling :
    (swept now : ℕ) (locked : ℕ → Bool) (t : Jobs) (x : Job) (worker : String) (limit lease : ℕ)
    (send_lease : Option ℕ) (j : ClaimedJob)
    → IsConsistent t
    → In x t.rows
    → is_running x.state ≡ true
    → x.max_attempts ≤ x.attempts
    → In j (claim now locked (requeue swept t x.id).1 worker limit lease send_lease).0
    → j.id ≢ x.id
requeued_at_ceiling swept now locked t x worker limit lease send_lease j c m run top h same =
    let c' = (sweeps-IsConsistent swept t c x.id "").0 in
    let (y, my, el, e) =
      claim-IsEligible now locked (requeue swept t x.id).1 worker limit lease send_lease j c' h in
    let ids : y.id ≡ x.id =
      sym (claimed_id y now lease (or_default send_lease lease) worker)
      ∙ sym (ap (λ (k : ClaimedJob). k.id) e)
      ∙ same in
    let here : y ≡ set_requeued swept x =
      Distinct-eq (λ k. k.id) (requeue swept t x.id).1.rows y (set_requeued swept x) c'.distinct my
        (requeued_row swept t x m run) ids in
    omega (
      arith,
      top,
      el.room,
      ap (λ (k : Job). k.attempts) here,
      ap (λ (k : Job). k.max_attempts) here,
    )
