-- ===== src/Jobs/Claim/Leased.antt =====
-- What the claim leaves behind: the constraints of the table hold, the leased jobs were ready, due,
-- below their ceiling and alone in their partition, and a ready row at its ceiling is never touched.
use unified_search_safe_send.Prelude.{
  ℕ, ◌≤◌, ◌<◌, ◌≡◌, refl, sym, ap, ◌∙◌, inl, inr, Bool, true, false, ◌&&◌, some, List, String,
  arith, In, In-update, Distinct-update, exists_where-In, Bool-cases, update_where,
}
use text.Mathlib.TextPositions.{eq_refl}
use unified_search_safe_send.Jobs.Table.{Job, Jobs, is_ready, is_running, is_live, sql_eq}
use unified_search_safe_send.Jobs.Queue.Consistent.{IsConsistent, changed, has_lease}
use unified_search_safe_send.Jobs.Claim.{
  eligible, partition_free, claim_key, is_picked, picked_rows, set_claimed,
}
use unified_search_safe_send.Jobs.Claim.Picked.{In-picked, picked-apart, is_picked-In}

pub record IsEligible (now : ℕ) (locked : ℕ → Bool) (rows : List Job) (x : Job) : Type 0 where
  pub was_ready : is_ready x.state ≡ true
  pub due : x.run_at ≤ now
  pub room : x.attempts < x.max_attempts
  pub free : partition_free rows x.partition_key ≡ true
  pub unlocked : locked x.id ≡ false

pub eligible-parts :
    (now : ℕ) (locked : ℕ → Bool) (rows : List Job) (x : Job)
    → eligible now locked rows x ≡ true
    → IsEligible now locked rows x
eligible-parts now locked rows x h = record {
  was_ready = ground arith;
  due = ground arith;
  room = ground arith;
  free = ground arith;
  unlocked = ground arith;
}

-- A free partition has no running row.
partition_free-idle :
    (rows : List Job) (k : String) (r : Job)
    → partition_free rows (some k) ≡ true
    → In r rows
    → is_running r.state ≡ true
    → r.partition_key ≡ some k
    → ⊥
partition_free-idle rows k r f m run e = cc (
  f,
  exists_where-In (λ q. is_running q.state && sql_eq q.partition_key (some k)) rows r m
      (rw (run, e) (eq_refl k)),
)

same_key :
    (x w : Job) {k : String}
    → x.partition_key ≡ some k
    → w.partition_key ≡ some k
    → claim_key x ≡ claim_key w
unfolding claim_key
same_key x w ex ew = rw (ex, ew) refl

module _ (now : ℕ) (locked : ℕ → Bool) (worker : String) (limit lease send_lease : ℕ) (t : Jobs)
    (c : IsConsistent t) where
  abbrev picked : List Job
  picked = picked_rows now locked limit t.rows

  abbrev lease_row : Job → Job
  lease_row = set_claimed now worker lease send_lease

  pub was-IsEligible :
      (x : Job) → In x t.rows → is_picked picked x ≡ true → IsEligible now locked t.rows x
  was-IsEligible x m h =
      eligible-parts now locked t.rows x
        (In-picked now locked limit t.rows x
          (is_picked-In now locked limit t.rows x c.distinct m h)).1

  apart :
      (x w : Job) (k : String)
      → In x t.rows
      → In w t.rows
      → is_running (changed (is_picked picked) lease_row x).state ≡ true
      → is_running (changed (is_picked picked) lease_row w).state ≡ true
      → x.partition_key ≡ some k
      → w.partition_key ≡ some k
      → x.id ≡ w.id
  apart x w k mx mw rx ry ex ew = elim (Bool-cases (is_picked picked x)) [
    | inl px ↦ elim (Bool-cases (is_picked picked w)) [
      | inl pw ↦
          ap (λ (j : Job). j.id)
            (picked-apart now locked limit t.rows x w
              (is_picked-In now locked limit t.rows x c.distinct mx px)
              (is_picked-In now locked limit t.rows w c.distinct mw pw) (same_key x w ex ew))
      | inr pw ↦ absurd (
          partition_free-idle t.rows k w (rw ex at ((was-IsEligible x mx px).free)) mw (rw pw at ry)
            ew)
    ]
    | inr px ↦ elim (Bool-cases (is_picked picked w)) [
      | inl pw ↦ absurd (
          partition_free-idle t.rows k x (rw ew at ((was-IsEligible w mw pw).free)) mx (rw px at rx)
            ex)
      | inr pw ↦ c.partition_uniq x w k mx mw (rw px at rx) (rw pw at ry) ex ew
    ]
  ]

  still_live :
      (x : Job)
      → In x t.rows
      → is_live (changed (is_picked picked) lease_row x).state ≡ true
      → is_live x.state ≡ true
  still_live x m h = elim (Bool-cases (is_picked picked x)) [
    | inl p ↦ ground (arith, (was-IsEligible x m p).was_ready)
    | inr p ↦ rw p at h
  ]

  lease_bounds :
      (x : Job)
      → In x t.rows
      → (changed (is_picked picked) lease_row x).attempts
        ≤ (changed (is_picked picked) lease_row x).max_attempts
  lease_bounds x m = elim (Bool-cases (is_picked picked x)) [
    | inl p ↦ rw p (omega (arith, (was-IsEligible x m p).room))
    | inr p ↦ rw p (c.bounded x m)
  ]

  lease_shown :
      (x : Job)
      → In x t.rows
      → is_running (changed (is_picked picked) lease_row x).state
        ≡ has_lease (changed (is_picked picked) lease_row x)
  lease_shown x m = elim (Bool-cases (is_picked picked x)) [
    | inl p ↦ rw p
    | inr p ↦ rw p (c.leased x m)
  ]

  same_columns :
      (x : Job)
      → ((changed (is_picked picked) lease_row x).id ≡ x.id)
        × ((changed (is_picked picked) lease_row x).partition_key ≡ x.partition_key)
        × ((changed (is_picked picked) lease_row x).dedupe_key ≡ x.dedupe_key)
  same_columns x = elim (Bool-cases (is_picked picked x)) [
    | inl p ↦ rw p (refl, refl, refl)
    | inr p ↦ rw p (refl, refl, refl)
  ]

  pub leased_rows-IsConsistent :
      IsConsistent (record t { rows = update_where (is_picked picked) lease_row t.rows })
  leased_rows-IsConsistent = record {
    fresh = λ y m. let (x, mx, e) = back y m in rw (e, (same_columns x).0) (c.fresh x mx);
    distinct = Distinct-update (λ j. j.id) _ lease_row t.rows (λ x. refl) c.distinct;
    bounded = λ y m. let (x, mx, e) = back y m in rw e (lease_bounds x mx);
    leased = λ y m. let (x, mx, e) = back y m in rw e (lease_shown x mx);
    partition_uniq = λ y z k my mz ry rz ky kz.
        let (x, mx, e) = back y my in
        let (w, mw, d) = back z mz in
        cc (
          e,
          d,
          (same_columns x).0,
          (same_columns w).0,
          apart x w k mx mw (rw e at ry) (rw d at rz) (sym (same_columns x).1 ∙ rw e at ky)
              (sym (same_columns w).1 ∙ rw d at kz),
        );
    dedupe_uniq = λ y z k my mz ry rz ky kz.
        let (x, mx, e) = back y my in
        let (w, mw, d) = back z mz in
        cc (
          e,
          d,
          (same_columns x).0,
          (same_columns w).0,
          c.dedupe_uniq x w k mx mw (still_live x mx (rw e at ry)) (still_live w mw (rw d at rz))
              (sym (same_columns x).2 ∙ rw e at ky) (sym (same_columns w).2 ∙ rw d at kz),
        );
  }
    where
      back :
          (y : Job)
          → In y (update_where (is_picked picked) lease_row t.rows)
          → (x : Job) × In x t.rows × (y ≡ changed (is_picked picked) lease_row x)
      back = In-update (is_picked picked) lease_row t.rows
