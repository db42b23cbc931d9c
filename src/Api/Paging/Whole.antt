-- ===== src/Api/Paging/Whole.antt =====
-- Following the cursors of a listing: every visible row once, newest first.
use mathlib.Core.Path.{subst}
use unified_search_safe_send.Prelude.{
  ℕ, zero, suc, ◌≡◌, refl, sym, ap, ◌∙◌, ◌⊎◌, inl, inr, Bool, true, false, ◌&&◌, Option, none, some,
  List, [], ◌∷◌, ◌++◌, ◌≤◌, arith, leb, length, take, take-all, where_, last, Bool-cases, In,
  In-append, In-where, where-In, Distinct,
}
use unified_search_safe_send.Api.Paging.{
  Cursor, cursor_of, is_older, insert_newest, newest_first, select, page, listing, follow,
}
use unified_search_safe_send.Api.Paging.Ordered.{
  Newer, Newer-irrefl, Newer-asym, older_trans, IsOrdered, In-newest, newest-In, newest-IsOrdered,
  IsOrdered-eq, right-In, tail-IsOrdered, before-Newer, head-Newer,
}

module _ {A : Type 0} where
  split_last :
      (k : ℕ) (xs : List A)
      → suc k ≤ length xs
      → (ps : List A) × (x : A) × (qs : List A) × (xs ≡ ps ++ x ∷ qs)
        × (take (suc k) xs ≡ ps ++ x ∷ [])
        × (last (take (suc k) xs) ≡ some x)
  split_last k [] h = absurd (omega (arith, h))
  split_last zero (x ∷ xs) h = ([], x, xs, refl, refl, refl)
  split_last (suc k) (x ∷ []) h = absurd (omega (arith, h))
  split_last (suc k) (x ∷ y ∷ xs) h =
      let (ps, z, qs, e, t, l) = split_last k (y ∷ xs) (omega (arith, h)) in
      (x ∷ ps, z, qs, ap (λ w. x ∷ w) e, ap (λ w. x ∷ w) t, l)

  take-take-suc : (k : ℕ) (xs : List A) → take k (take (suc k) xs) ≡ take k xs
  take-take-suc zero xs = refl
  take-take-suc (suc k) [] = refl
  take-take-suc (suc k) (x ∷ xs) = ap (λ w. x ∷ w) (take-take-suc k xs)

  length-take-eq : (k : ℕ) (xs : List A) → k ≤ length xs → length (take k xs) ≡ k
  length-take-eq zero xs h = omega arith
  length-take-eq (suc k) [] h = absurd (omega (arith, h))
  length-take-eq (suc k) (x ∷ xs) h = omega (arith, length-take-eq k xs (omega (arith, h)))

  append-assoc-one : (ps : List A) (x : A) (qs : List A) → (ps ++ x ∷ []) ++ qs ≡ ps ++ x ∷ qs
  append-assoc-one [] x qs = refl
  append-assoc-one (p ∷ ps) x qs = ap (λ w. p ∷ w) (append-assoc-one ps x qs)

  length-split : (ps : List A) (x : A) (qs : List A) → suc (length qs) ≤ length (ps ++ x ∷ qs)
  length-split [] x qs = omega arith
  length-split (p ∷ ps) x qs = omega (arith, length-split ps x qs)

module _ {A : Type 0} (created id : A → ℕ) where
  where-Distinct : (p : A → Bool) (xs : List A) → Distinct id xs → Distinct id (where_ p xs)
  where-Distinct p [] d = tt
  where-Distinct p (x ∷ xs) d = elim (Bool-cases (p x)) [
    | inl e ↦ rw e (λ y m. d.0 y (In-where p xs y m).0, where-Distinct p xs d.1)
    | inr e ↦ rw e (where-Distinct p xs d.1)
  ]

  -- what the listing still has to show: the visible rows that the cursor lets through, newest first
  rest_of : (A → Bool) → Option Cursor → List A → List A
  rest_of visible c rows =
      newest_first created id (where_ (λ a. visible a && is_older created id c a) rows)

  rest-IsOrdered :
      (visible : A → Bool) (c : Option Cursor) (rows : List A)
      → Distinct id rows
      → IsOrdered created id (rest_of visible c rows)
  unfolding rest_of
  rest-IsOrdered visible c rows d =
      newest-IsOrdered created id (where_ (λ a. visible a && is_older created id c a) rows)
        (where-Distinct (λ a. visible a && is_older created id c a) rows d)

  both : (a b : Bool) → a ≡ true → b ≡ true → (a && b) ≡ true
  both a b h k = ground (arith, h, k)

  each : (a b : Bool) → (a && b) ≡ true → (a ≡ true) × (b ≡ true)
  each true b h = (refl, h)
  each false b h = absurd (ground (arith, h))

  In-rest :
      (visible : A → Bool) (c : Option Cursor) (rows : List A) (z : A)
      → In z (rest_of visible c rows)
      → In z rows × (visible z ≡ true) × (is_older created id c z ≡ true)
  unfolding rest_of
  In-rest visible c rows z m =
      let shown : A → Bool = λ a. visible a && is_older created id c a in
      let (k, t) = In-where shown rows z (In-newest created id (where_ shown rows) z m) in
      let (v, o) = each (visible z) (is_older created id c z) t in (k, v, o)

  rest-In :
      (visible : A → Bool) (c : Option Cursor) (rows : List A) (z : A)
      → In z rows
      → visible z ≡ true
      → is_older created id c z ≡ true
      → In z (rest_of visible c rows)
  unfolding rest_of
  rest-In visible c rows z m v o =
      let shown : A → Bool = λ a. visible a && is_older created id c a in
      newest-In created id (where_ shown rows) z
        (where-In shown rows z m (both (visible z) (is_older created id c z) v o))

  -- behind the row x of what is left, the cursor of x leaves what stands behind x
  rest-cursor_of :
      (visible : A → Bool) (c : Option Cursor) (rows ps : List A) (x : A) (qs : List A)
      → Distinct id rows
      → rest_of visible c rows ≡ ps ++ x ∷ qs
      → rest_of visible (some (cursor_of created id x)) rows ≡ qs
  rest-cursor_of visible c rows ps x qs d e =
      IsOrdered-eq created id (rest_of visible next rows) qs (rest-IsOrdered visible next rows d)
        (tail-IsOrdered created id (x ∷ []) qs behind) there back
    where
      next : Option Cursor
      next = some (cursor_of created id x)

      whole : IsOrdered created id (ps ++ x ∷ qs)
      whole = subst (λ w. IsOrdered created id w) e (rest-IsOrdered visible c rows d)

      behind : IsOrdered created id (x ∷ qs)
      behind = tail-IsOrdered created id ps (x ∷ qs) whole

      shown : (z : A) → In z (x ∷ qs) → In z (rest_of visible c rows)
      shown z m = subst (λ w. In z w) (sym e) (right-In created id ps (x ∷ qs) z m)

      place : (z : A) → Newer created id x z → In z ps ⊎ In z (x ∷ qs) → In z qs
      place z n (inl m) =
          cc (
            Newer-asym created id x z n
              (before-Newer created id ps (x ∷ qs) z x whole m (inl refl)))
      place z n (inr (inl q)) =
          cc (Newer-irrefl created id x (subst (λ w. Newer created id x w) q n))
      place z n (inr (inr m)) = m

      there : (z : A) → In z (rest_of visible next rows) → In z qs
      there z m =
          let (k, v, n) = In-rest visible next rows z m in
          let older =
            older_trans created id c x z (In-rest visible c rows x (shown x (inl refl))).2 n in
          place z n
            (In-append ps (x ∷ qs) z (subst (λ w. In z w) e (rest-In visible c rows z k v older)))

      back : (z : A) → In z qs → In z (rest_of visible next rows)
      back z m =
          let (k, v, o) = In-rest visible c rows z (shown z (inr m)) in
          rest-In visible next rows z k v (head-Newer created id x z qs behind m)

  listing-whole :
      (visible : A → Bool) (c : Option Cursor) (limit : ℕ) (rows : List A)
      → length (rest_of visible c rows) ≤ limit
      → listing created id visible c limit rows ≡ (rest_of visible c rows, none)
  unfolding listing select page rest_of
  listing-whole visible c limit rows h =
      let left : List A = rest_of visible c rows in
      let all : take (suc limit) left ≡ left = take-all (suc limit) left (omega (arith, h)) in
      let fits : leb (length left) limit ≡ true = ground (arith, h) in rw (all, fits) refl

  listing-part :
      (visible : A → Bool) (c : Option Cursor) (k : ℕ) (rows ps : List A) (x : A)
      → suc (suc k) ≤ length (rest_of visible c rows)
      → take (suc k) (rest_of visible c rows) ≡ ps ++ x ∷ []
      → last (take (suc k) (rest_of visible c rows)) ≡ some x
      → listing created id visible c (suc k) rows ≡ (ps ++ x ∷ [], some (cursor_of created id x))
  unfolding listing select page rest_of
  listing-part visible c k rows ps x h t l =
      let left : List A = rest_of visible c rows in
      let n : length (take (suc (suc k)) left) ≡ suc (suc k) =
        length-take-eq (suc (suc k)) left h in
      let over : leb (length (take (suc (suc k)) left)) (suc k) ≡ false = ground (arith, n) in
      rw (over, take-take-suc (suc k) left, l, t) refl

  follow-answer :
      (visible : A → Bool) (limit pages : ℕ) (c : Option Cursor) (rows : List A)
      (answer : List A × Option Cursor)
      → listing created id visible c limit rows ≡ answer
      → follow (suc pages) (λ a. listing created id visible a limit rows) c ≡ (elim answer.1 [
        | none ↦ answer.0
        | some d ↦ answer.0 ++ follow pages (λ a. listing created id visible a limit rows) (some d)
      ])
  unfolding follow
  follow-answer visible limit pages c rows answer e =
      ap
        (λ w. elim w.1 [
          | none ↦ w.0
          | some d ↦ w.0 ++ follow pages (λ a. listing created id visible a limit rows) (some d)
        ])
        e

  -- one page and then what the rest of the pages show
  follow-more :
      (visible : A → Bool) (k pages : ℕ) (c : Option Cursor) (rows : List A)
      → Distinct id rows
      → length (rest_of visible c rows) ≤ suc pages
      → suc (suc k) ≤ length (rest_of visible c rows)
      → ((next : Option Cursor)
          → length (rest_of visible next rows) ≤ pages
          → follow pages (λ a. listing created id visible a (suc k) rows) next
            ≡ rest_of visible next rows)
      → follow (suc pages) (λ a. listing created id visible a (suc k) rows) c
        ≡ rest_of visible c rows
  follow-more visible k pages c rows d h n later =
      let (ps, x, qs, e, t, l) = split_last k (rest_of visible c rows) (omega (arith, n)) in
      let next : rest_of visible (some (cursor_of created id x)) rows ≡ qs =
        rest-cursor_of visible c rows ps x qs d e in
      let shorter = length-split ps x qs in
      let enough : length qs ≤ pages = omega (arith, h, shorter, ap length e) in
      let rest = later (some (cursor_of created id x)) (rw next enough) in
      follow-answer visible (suc k) pages c rows (ps ++ x ∷ [], some (cursor_of created id x))
        (listing-part visible c k rows ps x n t l)
      ∙ ap (λ w. (ps ++ x ∷ []) ++ w) (rest ∙ next)
      ∙ append-assoc-one ps x qs
      ∙ sym e

  follow-rest :
      (visible : A → Bool) (k pages : ℕ) (c : Option Cursor) (rows : List A)
      → Distinct id rows
      → length (rest_of visible c rows) ≤ pages
      → follow pages (λ a. listing created id visible a (suc k) rows) c ≡ rest_of visible c rows
  unfolding follow
  follow-rest visible k zero c rows d h = take-all zero (rest_of visible c rows) h
  follow-rest visible k (suc pages) c rows d h =
      elim (Bool-cases (leb (length (rest_of visible c rows)) (suc k))) [
        | inl e ↦
            follow-answer visible (suc k) pages c rows (rest_of visible c rows, none)
              (listing-whole visible c (suc k) rows (ground (arith, e)))
        | inr e ↦
            follow-more visible k pages c rows d h (ground (arith, e))
              (λ next m. follow-rest visible k pages next rows d m)
      ]

  length-insert : (a : A) (xs : List A) → length (insert_newest created id a xs) ≡ suc (length xs)
  length-insert a [] = refl
  length-insert a (x ∷ xs) = ground (arith, length-insert a xs)

  length-newest-where :
      (p : A → Bool) (rows : List A)
      → length (newest_first created id (where_ p rows)) ≤ length rows
  length-newest-where p [] = omega arith
  length-newest-where p (x ∷ xs) = elim (Bool-cases (p x)) [
    | inl e ↦ rw e (
        omega (
          arith,
          length-insert x (newest_first created id (where_ p xs)),
          length-newest-where p xs,
        ))
    | inr e ↦ rw e (omega (arith, length-newest-where p xs))
  ]

  where-true : (p : A → Bool) (rows : List A) → where_ (λ a. p a && true) rows ≡ where_ p rows
  where-true p [] = refl
  where-true p (x ∷ xs) = elim (Bool-cases (p x)) [
    | inl e ↦ rw e (ap (λ w. x ∷ w) (where-true p xs))
    | inr e ↦ rw e (where-true p xs)
  ]

  -- as many pages as there are rows are enough to see every visible row
  pub follow-listing :
      (visible : A → Bool) (k pages : ℕ) (rows : List A)
      → Distinct id rows
      → length rows ≤ pages
      → follow pages (λ a. listing created id visible a (suc k) rows) none
        ≡ newest_first created id (where_ visible rows)
  unfolding rest_of
  follow-listing visible k pages rows d h =
      follow-rest visible k pages none rows d
        (omega (arith, h, length-newest-where (λ a. visible a && true) rows))
      ∙ ap (λ w. newest_first created id w) (where-true visible rows)
