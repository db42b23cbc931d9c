-- ===== src/Jobs/Queue/Entry.antt =====
-- The two transitions that make a row live, a new job and an operator's retry, and the constraints
-- that they could break: each keeps the table consistent, or reports the conflict.
use text.Mathlib.TextPositions.{eq_refl}
use unified_search_safe_send.Prelude.{
  ℕ, ◌≡◌, refl, sym, ap, ◌∙◌, ◌⊎◌, inl, inr, true, false, some, List, [], ◌∷◌, ◌++◌, String, arith,
  In, In-append, Distinct-snoc, exists_where, exists_where-none, Bool-cases, ◌&&◌,
}
use unified_search_safe_send.Jobs.Table.{Job, Jobs, is_running, is_live, sql_eq}
use unified_search_safe_send.Jobs.Queue.{Enqueue, new_job, enqueue, live_duplicate}
use unified_search_safe_send.Jobs.Queue.Consistent.{IsConsistent}

-- No live row holds a key that the duplicate test did not find.
no_duplicate :
    (rows : List Job) (k : String) (x : Job)
    → exists_where (live_duplicate (some k)) rows ≡ false
    → In x rows
    → is_live x.state ≡ true
    → x.dedupe_key ≡ some k
    → ⊥
no_duplicate rows k x e m live d =
    let here : (is_live x.state && sql_eq x.dedupe_key (some k)) ≡ true =
      rw (live, d) (eq_refl k) in
    cc (here, exists_where-none (live_duplicate (some k)) rows x e m)

-- Enqueueing keeps the constraints of the table, whether it inserts or finds a live duplicate.
pub enqueue-IsConsistent :
    (now limit : ℕ) (t : Jobs) (e : Enqueue)
    → IsConsistent t
    → IsConsistent (enqueue now limit t e).1
unfolding enqueue
enqueue-IsConsistent now limit t e c =
    elim (Bool-cases (exists_where (live_duplicate e.dedupe_key) t.rows)) [
      | inl dup ↦ rw dup (record {
        fresh = λ x m. omega (arith, c.fresh x m);
        distinct = c.distinct;
        bounded = c.bounded;
        leased = c.leased;
        partition_uniq = c.partition_uniq;
        dedupe_uniq = c.dedupe_uniq;
      })
      | inr new ↦ rw new (record {
        fresh = λ x m. elim (old x m) [
          | inl k ↦ omega (arith, c.fresh x k)
          | inr q ↦ rw q (omega arith)
        ];
        distinct =
            Distinct-snoc (λ j. j.id) t.rows job (λ x m q. ground (arith, c.fresh x m)) c.distinct;
        bounded = λ x m. elim (old x m) [ inl k ↦ c.bounded x k | inr q ↦ rw q (omega arith) ];
        leased = λ x m. elim (old x m) [ inl k ↦ c.leased x k | inr q ↦ rw q refl ];
        partition_uniq = λ x y k mx my rx ry ex ey. elim (old x mx) [
          | inl kx ↦ elim (old y my) [
            | inl ky ↦ c.partition_uniq x y k kx ky rx ry ex ey
            | inr q ↦ cc (ap (λ (j : Job). is_running j.state) q)
          ]
          | inr q ↦ cc (ap (λ (j : Job). is_running j.state) q)
        ];
        dedupe_uniq = λ x y k mx my lx ly ex ey. elim (old x mx) [
          | inl kx ↦ elim (old y my) [
            | inl ky ↦ c.dedupe_uniq x y k kx ky lx ly ex ey
            | inr q ↦ absurd (
                no_duplicate t.rows k x (unique k (sym (ap (λ (j : Job). j.dedupe_key) q) ∙ ey) new)
                  kx lx ex)
          ]
          | inr p ↦ elim (old y my) [
            | inl ky ↦ absurd (
                no_duplicate t.rows k y (unique k (sym (ap (λ (j : Job). j.dedupe_key) p) ∙ ex) new)
                  ky ly ey)
            | inr q ↦ ap (λ (j : Job). j.id) (p ∙ sym q)
          ]
        ];
      })
    ]
  where
    job : Job
    job = new_job now limit t.next_id e

    old : (x : Job) → In x (t.rows ++ job ∷ []) → In x t.rows ⊎ (x ≡ job)
    old x m = elim (In-append t.rows (job ∷ []) x m) [
      | inl k ↦ inl k
      | inr k ↦ elim k [ inl q ↦ inr q | inr z ↦ absurd z ]
    ]

    unique :
        (k : String)
        → e.dedupe_key ≡ some k
        → exists_where (live_duplicate e.dedupe_key) t.rows ≡ false
        → exists_where (live_duplicate (some k)) t.rows ≡ false
    unique k q h = rw q at h
