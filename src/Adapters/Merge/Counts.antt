-- ===== src/Adapters/Merge/Counts.antt =====
-- The rows of a merged page, counted by any test: sorting and the rounds lose and add nothing.
use unified_search_safe_send.Prelude.{
  ℕ, zero, suc, ◌+◌, ◌≤◌, ◌≡◌, refl, sym, ◌∙◌, inl, inr, Bool, List, [], ◌∷◌, ◌++◌, arith, str_eq,
  Bool-cases, length, map, rowcount,
}
use unified_search_safe_send.Adapters.Merge.{
  Ranked, Bucket, source_of, head_leb, insert_by, sort_by, add, fill, heads, pop, rounds,
}

-- no bucket has more than n rows
abbrev pub Fits : ℕ → List Bucket → Type 0
Fits n [] = Unit
Fits n (b ∷ bs) = (length b.1 ≤ n) × Fits n bs

Fits-pop : (n : ℕ) (bs : List Bucket) → Fits (suc n) bs → Fits n (map pop bs)
Fits-pop n [] h = tt
Fits-pop n ((s, []) ∷ bs) h = (omega arith, Fits-pop n bs h.1)
Fits-pop n ((s, item ∷ items) ∷ bs) h = (omega (arith, h.0), Fits-pop n bs h.1)

module _ (p : Ranked → Bool) where
  pub rowcount-append :
      (xs ys : List Ranked) → rowcount p (xs ++ ys) ≡ rowcount p xs + rowcount p ys
  rowcount-append [] ys = omega arith
  rowcount-append (x ∷ xs) ys = ground (arith, rowcount-append xs ys)

  rowcount-insert :
      (leb : Ranked → Ranked → Bool) (a : Ranked) (xs : List Ranked)
      → rowcount p (insert_by leb a xs) ≡ rowcount p (a ∷ xs)
  rowcount-insert leb a [] = refl
  rowcount-insert leb a (x ∷ xs) = elim (Bool-cases (leb a x)) [
    | inl e ↦ ground (arith, e)
    | inr e ↦ ground (arith, e, rowcount-insert leb a xs)
  ]

  pub rowcount-sort :
      (leb : Ranked → Ranked → Bool) (xs : List Ranked)
      → rowcount p (sort_by leb xs) ≡ rowcount p xs
  rowcount-sort leb [] = refl
  rowcount-sort leb (x ∷ xs) =
      rowcount-insert leb x (sort_by leb xs) ∙ ground (arith, rowcount-sort leb xs)

  -- the rows that all buckets hold
  abbrev pub total : List Bucket → ℕ
  total [] = 0
  total (b ∷ bs) = rowcount p b.1 + total bs

  total-add :
      (bs : List Bucket) (item : Ranked) → total (add bs item) ≡ total bs + rowcount p (item ∷ [])
  total-add [] item = ground arith
  total-add ((s, items) ∷ bs) item = elim (Bool-cases (str_eq s (source_of item))) [
    | inl e ↦ rw e (omega (arith, rowcount-append items (item ∷ [])))
    | inr e ↦ rw e (omega (arith, total-add bs item))
  ]

  pub total-fill :
      (bs : List Bucket) (xs : List Ranked) → total (fill bs xs) ≡ total bs + rowcount p xs
  unfolding fill
  total-fill bs [] = omega arith
  total-fill bs (x ∷ xs) = ground (arith, total-fill (add bs x) xs, total-add bs x)

  total-heads : (bs : List Bucket) → rowcount p (heads bs) + total (map pop bs) ≡ total bs
  unfolding heads
  total-heads [] = refl
  total-heads ((s, []) ∷ bs) = omega (arith, total-heads bs)
  total-heads ((s, item ∷ items) ∷ bs) = ground (arith, total-heads bs)

  Fits-zero : (bs : List Bucket) → Fits zero bs → total bs ≡ 0
  Fits-zero [] h = refl
  Fits-zero ((s, []) ∷ bs) h = omega (arith, Fits-zero bs h.1)
  Fits-zero ((s, item ∷ items) ∷ bs) h = absurd (omega (arith, h.0))

  -- enough rounds hand over every row
  pub rowcount-rounds : (n : ℕ) (bs : List Bucket) → Fits n bs → rowcount p (rounds n bs) ≡ total bs
  unfolding rounds
  rowcount-rounds zero bs h = sym (Fits-zero bs h)
  rowcount-rounds (suc n) bs h =
      rowcount-append (sort_by head_leb (heads bs)) (rounds n (map pop bs))
      ∙ omega (
        arith,
        rowcount-sort head_leb (heads bs),
        rowcount-rounds n (map pop bs) (Fits-pop n bs h),
        total-heads bs,
      )
