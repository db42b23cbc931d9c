-- ===== src/Api/Paging/Ordered.antt =====
-- Listings are strictly ordered, and an ordered listing is known by its members.
use unified_search_safe_send.Prelude.{
  ℕ, ◌≡◌, ◌≢◌, refl, sym, ◌∙◌, ◌⊎◌, inl, inr, true, false, Option, none, some, List, [], ◌∷◌, ◌++◌,
  arith, Bool-cases, In, In-branch, Distinct,
}
use unified_search_safe_send.Api.Paging.{Cursor, cursor_of, is_older, insert_newest, newest_first}

module _ {A : Type 0} (created id : A → ℕ) where
  -- x stands before y
  abbrev pub Newer : A → A → Type 0
  Newer x y = is_older created id (some (cursor_of created id x)) y ≡ true

  Newer-trans : (x y z : A) → Newer x y → Newer y z → Newer x z
  Newer-trans x y z h k = ground (arith, h, k)

  -- what stands behind a row that a cursor lets through, the cursor lets through
  pub older_trans :
      (c : Option Cursor) (x z : A)
      → is_older created id c x ≡ true
      → Newer x z
      → is_older created id c z ≡ true
  older_trans none x z h k = refl
  older_trans (some c) x z h k = ground (arith, h, k)

  pub Newer-irrefl : (x : A) → Newer x x → true ≡ false
  Newer-irrefl x h = absurd (ground (arith, h))

  pub Newer-asym : (x y : A) → Newer x y → Newer y x → true ≡ false
  Newer-asym x y h k = absurd (ground (arith, h, k))

  Newer-total :
      (x y : A)
      → is_older created id (some (cursor_of created id x)) y ≡ false
      → id x ≢ id y
      → Newer y x
  Newer-total x y h n = ground (arith, h, n)

  pub IsOrdered : List A → Type 0
  IsOrdered [] = Unit
  IsOrdered (x ∷ xs) = ((y : A) → In y xs → Newer x y) × IsOrdered xs

  pub In-insert :
      (a : A) (xs : List A) (y : A) → In y (insert_newest created id a xs) → (y ≡ a) ⊎ In y xs
  In-insert a [] y m = m
  In-insert a (x ∷ xs) y m =
      elim (In-branch (is_older created id (some (cursor_of created id a)) x) (a ∷ x ∷ xs)
        (x ∷ insert_newest created id a xs) y m) [
          | inl (_, k) ↦ k
          | inr (_, inl e) ↦ inr (inl e)
          | inr (_, inr k) ↦ elim (In-insert a xs y k) [ inl e ↦ inl e | inr l ↦ inr (inr l) ]
        ]

  insert-In :
      (a : A) (xs : List A) (y : A) → (y ≡ a) ⊎ In y xs → In y (insert_newest created id a xs)
  insert-In a [] y m = m
  insert-In a (x ∷ xs) y m =
      elim (Bool-cases (is_older created id (some (cursor_of created id a)) x)) [
        | inl e ↦ rw e m
        | inr e ↦ rw e (elim m [
          | inl q ↦ inr (insert-In a xs y (inl q))
          | inr (inl q) ↦ inl q
          | inr (inr k) ↦ inr (insert-In a xs y (inr k))
        ])
      ]

  pub In-newest : (xs : List A) (y : A) → In y (newest_first created id xs) → In y xs
  In-newest [] y m = m
  In-newest (x ∷ xs) y m = elim (In-insert x (newest_first created id xs) y m) [
    | inl e ↦ inl e
    | inr k ↦ inr (In-newest xs y k)
  ]

  pub newest-In : (xs : List A) (y : A) → In y xs → In y (newest_first created id xs)
  newest-In [] y m = m
  newest-In (x ∷ xs) y (inl e) = insert-In x (newest_first created id xs) y (inl e)
  newest-In (x ∷ xs) y (inr k) = insert-In x (newest_first created id xs) y (inr (newest-In xs y k))

  insert-IsOrdered :
      (a : A) (xs : List A)
      → ((y : A) → In y xs → id a ≢ id y)
      → IsOrdered xs
      → IsOrdered (insert_newest created id a xs)
  unfolding IsOrdered
  insert-IsOrdered a [] n h = (λ y m. absurd m, tt)
  insert-IsOrdered a (x ∷ xs) n h =
      elim (Bool-cases (is_older created id (some (cursor_of created id a)) x)) [
        | inl e ↦ rw e (first e, h)
        | inr e ↦ rw e (later e, insert-IsOrdered a xs (λ y m. n y (inr m)) h.1)
      ]
    where
      first : Newer a x → (y : A) → In y (x ∷ xs) → Newer a y
      first e y (inl q) = rw q e
      first e y (inr m) = Newer-trans a x y e (h.0 y m)

      later :
          is_older created id (some (cursor_of created id a)) x ≡ false
          → (y : A) → In y (insert_newest created id a xs)
          → Newer x y
      later e y m = elim (In-insert a xs y m) [
        | inl q ↦ rw q (Newer-total a x e (n x (inl refl)))
        | inr k ↦ h.0 y k
      ]

  pub newest-IsOrdered : (xs : List A) → Distinct id xs → IsOrdered (newest_first created id xs)
  unfolding IsOrdered
  newest-IsOrdered [] d = tt
  newest-IsOrdered (x ∷ xs) d =
      insert-IsOrdered x (newest_first created id xs) (λ y m e. d.0 y (In-newest xs y m) (sym e))
        (newest-IsOrdered xs d.1)

  -- two ordered lists with the same members are one list
  pub IsOrdered-eq :
      (xs ys : List A)
      → IsOrdered xs
      → IsOrdered ys
      → ((z : A) → In z xs → In z ys)
      → ((z : A) → In z ys → In z xs)
      → xs ≡ ys
  unfolding IsOrdered
  IsOrdered-eq [] [] h k f g = refl
  IsOrdered-eq [] (y ∷ ys) h k f g = absurd (g y (inl refl))
  IsOrdered-eq (x ∷ xs) [] h k f g = absurd (f x (inl refl))
  IsOrdered-eq (x ∷ xs) (y ∷ ys) h k f g =
      let e : x ≡ y = heads (f x (inl refl)) (g y (inl refl)) in
      let rest : xs ≡ ys = IsOrdered-eq xs ys h.1 k.1 (left e) (right e) in cc (e, rest)
    where
      heads : (x ≡ y) ⊎ In x ys → (y ≡ x) ⊎ In y xs → x ≡ y
      heads (inl e) n = e
      heads (inr m) (inl e) = sym e
      heads (inr m) (inr n) = cc (Newer-asym x y (h.0 y n) (k.0 x m))

      left : x ≡ y → (z : A) → In z xs → In z ys
      left e z m = elim (f z (inr m)) [
        | inr k ↦ k
        | inl q ↦ let n : Newer x z = h.0 z m in cc (Newer-irrefl x (rw (q ∙ sym e) at n))
      ]

      right : x ≡ y → (z : A) → In z ys → In z xs
      right e z m = elim (g z (inr m)) [
        | inr k ↦ k
        | inl q ↦ let n : Newer y z = k.0 z m in cc (Newer-irrefl y (rw (q ∙ e) at n))
      ]

  pub right-In : (ps qs : List A) (y : A) → In y qs → In y (ps ++ qs)
  right-In [] qs y m = m
  right-In (p ∷ ps) qs y m = inr (right-In ps qs y m)

  pub tail-IsOrdered : (ps qs : List A) → IsOrdered (ps ++ qs) → IsOrdered qs
  unfolding IsOrdered
  tail-IsOrdered [] qs h = h
  tail-IsOrdered (p ∷ ps) qs h = tail-IsOrdered ps qs h.1

  pub before-Newer :
      (ps qs : List A) (y z : A) → IsOrdered (ps ++ qs) → In y ps → In z qs → Newer y z
  unfolding IsOrdered
  before-Newer [] qs y z h m k = absurd m
  before-Newer (p ∷ ps) qs y z h (inl e) k = rw e (h.0 z (right-In ps qs z k))
  before-Newer (p ∷ ps) qs y z h (inr m) k = before-Newer ps qs y z h.1 m k

  pub head-Newer : (x z : A) (qs : List A) → IsOrdered (x ∷ qs) → In z qs → Newer x z
  unfolding IsOrdered
  head-Newer x z qs h m = h.0 z m
