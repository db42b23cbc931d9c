-- ===== src/Jobs/Claim/Safety.antt =====
-- The theorems about `claim` as its callers see it.
use unified_search_safe_send.Prelude.{
  ℕ, ◌≤◌, ◌≡◌, refl, ap, ◌∙◌, Bool, true, if◌then◌else◌, Option, List, String, arith, length, In,
  In-map, In-where, In-update, Bool-cases, inl, inr, or_default, rowcount-update, length-map-where,
  update_where,
}
use unified_search_safe_send.Jobs.Table.{Job, Jobs, ClaimedJob, from_row}
use unified_search_safe_send.Jobs.Queue.Consistent.{IsConsistent}
use unified_search_safe_send.Jobs.Claim.{claim, is_picked, picked_rows, set_claimed}
use unified_search_safe_send.Jobs.Claim.Picked.{length-picked-le, rowcount-is_picked-le}
use unified_search_safe_send.Jobs.Claim.Leased.{
  IsEligible, was-IsEligible, leased_rows-IsConsistent,
}

module _ (now : ℕ) (locked : ℕ → Bool) (t : Jobs) (worker : String) (limit lease : ℕ)
    (send_lease : Option ℕ) where
  -- From a table that satisfies its constraints, a claim leaves one that does: the attempt ceiling,
  -- the lease CHECK, one running job per partition and the dedupe index. This is one statement on the
  -- rows that it sees: a claim that another transaction has not committed yet is not among them.
  pub claim-IsConsistent :
      IsConsistent t → IsConsistent (claim now locked t worker limit lease send_lease).1
  unfolding claim
  claim-IsConsistent c =
      leased_rows-IsConsistent now locked worker limit lease (or_default send_lease lease) t c

  -- Each job that a claim returns is the copy of a leased row of the table; before the claim that
  -- row was ready, due, below its attempt ceiling, not held by another transaction, and its
  -- partition, if it has one, had no running row.
  pub claim-IsEligible :
      (j : ClaimedJob)
      → IsConsistent t
      → In j (claim now locked t worker limit lease send_lease).0
      → (x : Job) × In x t.rows
        × IsEligible now locked t.rows x
        × (j ≡ from_row (set_claimed now worker lease (or_default send_lease lease) x))
  unfolding claim
  claim-IsEligible j c h =
      let (y, my, e) = In-map from_row _ j h in
      let (m, p) = In-where (is_picked _) _ y my in
      let (x, mx, d) = In-update (is_picked _) _ t.rows y m in found y x mx p e d
    where
      picked : List Job
      picked = picked_rows now locked limit t.rows

      lease_row : Job → Job
      lease_row = set_claimed now worker lease (or_default send_lease lease)

      found :
          (y x : Job)
          → In x t.rows
          → is_picked picked y ≡ true
          → j ≡ from_row y
          → y ≡ (if is_picked picked x then lease_row x else x)
          → (x : Job) × In x t.rows × IsEligible now locked t.rows x × (j ≡ from_row (lease_row x))
      found y x mx p e d = elim (Bool-cases (is_picked picked x)) [
        | inl px ↦ (
          x,
          mx,
          was-IsEligible now locked worker limit lease 0 t c x mx px,
          e ∙ ap from_row (rw px at d),
        )
        | inr px ↦ cc (p, px, rw px at d)
      ]

  -- A claim returns at most `limit` jobs.
  pub length-claim-le :
      IsConsistent t → length (claim now locked t worker limit lease send_lease).0 ≤ limit
  unfolding claim
  length-claim-le c =
      let picked = picked_rows now locked limit t.rows in
      let lease_row = set_claimed now worker lease (or_default send_lease lease) in
      omega (
        arith,
        length-map-where from_row (is_picked picked)
            (update_where (is_picked picked) lease_row t.rows),
        rowcount-update (is_picked picked) lease_row t.rows (λ x. refl),
        rowcount-is_picked-le picked t.rows c.distinct,
        length-picked-le now locked limit t.rows,
      )
