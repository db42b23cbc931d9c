-- ===== src/Jobs/Claim/Picked.antt =====
-- What the stages of the claim let through.
use unified_search_safe_send.Prelude.{
  ℕ, ◌+◌, ◌≤◌, ◌≡◌, sym, ap, ◌∙◌, ◌⊎◌, inl, inr, Bool, true, false, List, [], ◌∷◌, String, arith,
  In-branch, ◌≢◌, eq_iff, str_eq, ◌==◌, ==_iff, In, In-where, In-take, exists_where,
  exists_where-find, Distinct, Distinct-eq, Bool-cases, length, length-take-le, rowcount,
  rowcount-le-one, where_,
}
use unified_search_safe_send.Jobs.Table.{Job}
use unified_search_safe_send.Jobs.Claim.{
  eligible, before, insert_job, sort_jobs, candidates, claim_key, distinct_on, is_picked,
  picked_rows,
}

In-insert_job : (j : Job) (ks : List Job) (x : Job) → In x (insert_job j ks) → (x ≡ j) ⊎ In x ks
unfolding insert_job
In-insert_job j [] x h = h
In-insert_job j (k ∷ ks) x h =
    elim (In-branch (before j k) (j ∷ k ∷ ks) (k ∷ insert_job j ks) x h) [
      | inl m ↦ m.1
      | inr m ↦ elim m.1 [
        | inl e ↦ inr (inl e)
        | inr r ↦ elim (In-insert_job j ks x r) [ inl e ↦ inl e | inr q ↦ inr (inr q) ]
      ]
    ]

In-sort_jobs : (js : List Job) (x : Job) → In x (sort_jobs js) → In x js
unfolding sort_jobs
In-sort_jobs [] x h = h
In-sort_jobs (j ∷ js) x h = elim (In-insert_job j (sort_jobs js) x h) [
  | inl e ↦ inl e
  | inr m ↦ inr (In-sort_jobs js x m)
]

In-candidates :
    (now : ℕ) (locked : ℕ → Bool) (limit : ℕ) (rows : List Job) (x : Job)
    → In x (candidates now locked limit rows)
    → In x rows × (eligible now locked rows x ≡ true)
unfolding candidates
In-candidates now locked limit rows x h =
    In-where (eligible now locked rows) rows x (In-sort_jobs _ x (In-take limit _ x h))

In-distinct_on :
    (seen : List String) (cs : List Job) (x : Job)
    → In x (distinct_on seen cs)
    → In x cs × (exists_where (str_eq (claim_key x)) seen ≡ false)
unfolding distinct_on
In-distinct_on seen [] x h = absurd h
In-distinct_on seen (c ∷ cs) x h =
    elim (In-branch (exists_where (str_eq (claim_key c)) seen) _ _ x h) [
      | inl m ↦ let (k, e) = In-distinct_on seen cs x m.1 in (inr k, e)
      | inr m ↦ elim m.1 [
        | inl e ↦ (inl e, rw e m.0)
        | inr r ↦ let (k, e) = In-distinct_on (claim_key c ∷ seen) cs x r in (inr k, ground arith)
      ]
    ]

-- Two picked rows with one key are one row.
distinct_on-apart :
    (seen : List String) (cs : List Job) (x y : Job)
    → In x (distinct_on seen cs)
    → In y (distinct_on seen cs)
    → claim_key x ≡ claim_key y
    → x ≡ y
unfolding distinct_on
distinct_on-apart seen [] x y hx hy e = absurd hx
distinct_on-apart seen (c ∷ cs) x y hx hy e =
    let b = exists_where (str_eq (claim_key c)) seen in
    elim (Bool-cases b) [
      | inl t ↦ distinct_on-apart seen cs x y (rw t at hx) (rw t at hy) e
      | inr t ↦
          kept (λ p q. distinct_on-apart (claim_key c ∷ seen) cs x y p q e) (rw t at hx)
            (rw t at hy)
    ]
  where
    rest : List Job
    rest = distinct_on (claim_key c ∷ seen) cs

    later : (z : Job) → In z rest → claim_key z ≢ claim_key c
    later z m q =
        ground (
          arith,
          eq_iff (claim_key z) (claim_key c),
          (In-distinct_on (claim_key c ∷ seen) cs z m).1,
        )

    kept : (In x rest → In y rest → x ≡ y) → In x (c ∷ rest) → In y (c ∷ rest) → x ≡ y
    kept ih (inl p) (inl q) = p ∙ sym q
    kept ih (inl p) (inr q) = absurd (later y q (sym e ∙ ap claim_key p))
    kept ih (inr p) (inl q) = absurd (later x p (e ∙ ap claim_key q))
    kept ih (inr p) (inr q) = ih p q

length-distinct_on-le :
    (seen : List String) (cs : List Job) → length (distinct_on seen cs) ≤ length cs
unfolding distinct_on
length-distinct_on-le seen [] = omega arith
length-distinct_on-le seen (c ∷ cs) =
    ground (arith, length-distinct_on-le seen cs, length-distinct_on-le (claim_key c ∷ seen) cs)

module _ (now : ℕ) (locked : ℕ → Bool) (limit : ℕ) (rows : List Job) where
  -- A picked row is a row of the table, and was eligible.
  pub In-picked :
      (x : Job)
      → In x (picked_rows now locked limit rows)
      → In x rows × (eligible now locked rows x ≡ true)
  In-picked x h = In-candidates now locked limit rows x (In-distinct_on [] _ x h).0

  pub picked-apart :
      (x y : Job)
      → In x (picked_rows now locked limit rows)
      → In y (picked_rows now locked limit rows)
      → claim_key x ≡ claim_key y
      → x ≡ y
  picked-apart = distinct_on-apart [] (candidates now locked limit rows)

  pub length-picked-le : length (picked_rows now locked limit rows) ≤ limit
  unfolding candidates
  length-picked-le = omega (
    arith,
    length-distinct_on-le [] (candidates now locked limit rows),
    length-take-le limit (sort_jobs (where_ (eligible now locked rows) rows)),
  )

  -- A row of the table whose number was picked is the picked row itself.
  pub is_picked-In :
      (x : Job)
      → Distinct (λ j. j.id) rows
      → In x rows
      → is_picked (picked_rows now locked limit rows) x ≡ true
      → In x (picked_rows now locked limit rows)
  is_picked-In x d m h =
      let (c, mc, e) =
        exists_where-find (λ c. c.id == x.id) (picked_rows now locked limit rows) h in
      let same = Distinct-eq (λ j. j.id) rows c x d (In-picked c mc).0 m ((==_iff c.id x.id).0 e) in
      rw same at mc

-- The rows whose numbers are in a list are no more than the list is long.
pub rowcount-is_picked-le :
    (cs rows : List Job) → Distinct (λ j. j.id) rows → rowcount (is_picked cs) rows ≤ length cs
rowcount-is_picked-le [] [] d = omega arith
rowcount-is_picked-le [] (x ∷ rows) d = rowcount-is_picked-le [] rows d.1
rowcount-is_picked-le (c ∷ cs) rows d = omega (
  arith,
  rowcount-or rows,
  rowcount-is_picked-le cs rows d,
  rowcount-le-one (λ j. j.id) (λ j. c.id == j.id) c.id rows (λ x h. sym ((==_iff c.id x.id).0 h)) d,
)
  where
    rowcount-or :
        (xs : List Job)
        → rowcount (is_picked (c ∷ cs)) xs
          ≤ rowcount (λ j. c.id == j.id) xs + rowcount (is_picked cs) xs
    rowcount-or [] = omega arith
    rowcount-or (x ∷ xs) = ground (arith, rowcount-or xs)
