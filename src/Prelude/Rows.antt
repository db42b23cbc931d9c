-- ===== src/Prelude/Rows.antt =====
-- Membership in a table's rows, and what UPDATE, row counts and EXISTS say about the members. Rows
-- are told apart by a numeric key.
use Prim.Native.Nat.{ℕ, zero, suc, ◌≤◌, ◌<◌}
use mathlib.Core.Path.{◌≡◌, refl, sym, ap, ◌∙◌, subst}
use mathlib.Core.Logic.{◌≢◌, ◌⊎◌, inl, inr}
use mathlib.Core.Bool.{Bool, true, false}
use mathlib.Core.Option.{none, some}
use mathlib.Core.List.{List, [], ◌∷◌, ◌++◌, map}
use native.Mathlib.Omega.{arith}
use unified_search_safe_send.Prelude.Tests.{if◌then◌else◌, ◌==◌, Bool-cases}
use unified_search_safe_send.Prelude.Lists.{
  take, where_, first_where, update_where, rowcount, exists_where, length,
}

module _ {A : Type 0} where
  abbrev pub In : A → List A → Type 0
  In a [] = ⊥
  In a (x ∷ xs) = (a ≡ x) ⊎ In a xs

  pub In-update :
      (p : A → Bool) (f : A → A) (xs : List A) (y : A)
      → In y (update_where p f xs)
      → (x : A) × In x xs × (y ≡ (if p x then f x else x))
  In-update p f [] y h = absurd h
  In-update p f (x ∷ xs) y (inl e) = (x, inl refl, e)
  In-update p f (x ∷ xs) y (inr h) = let (z, m, e) = In-update p f xs y h in (z, inr m, e)

  pub update-In :
      (p : A → Bool) (f : A → A) (xs : List A) (x : A)
      → In x xs
      → In (if p x then f x else x) (update_where p f xs)
  update-In p f [] x h = absurd h
  update-In p f (y ∷ xs) x (inl e) = inl (rw e refl)
  update-In p f (y ∷ xs) x (inr h) = inr (update-In p f xs x h)

  pub length-update :
      (p : A → Bool) (f : A → A) (xs : List A) → length (update_where p f xs) ≡ length xs
  length-update p f [] = refl
  length-update p f (x ∷ xs) = omega (arith, length-update p f xs)

  pub In-append : (xs ys : List A) (y : A) → In y (xs ++ ys) → In y xs ⊎ In y ys
  In-append [] ys y h = inr h
  In-append (x ∷ xs) ys y (inl e) = inl (inl e)
  In-append (x ∷ xs) ys y (inr h) = elim (In-append xs ys y h) [
    | inl m ↦ inl (inr m)
    | inr m ↦ inr m
  ]

  pub In-last : (xs : List A) (y : A) → In y (xs ++ y ∷ [])
  In-last [] y = inl refl
  In-last (x ∷ xs) y = inr (In-last xs y)

  pub In-branch :
      (b : Bool) (xs ys : List A) (x : A)
      → In x (if b then xs else ys)
      → ((b ≡ true) × In x xs) ⊎ ((b ≡ false) × In x ys)
  In-branch true xs ys x h = inl (refl, h)
  In-branch false xs ys x h = inr (refl, h)

  In-if :
      (b : Bool) (y : A) (r : List A) (x : A)
      → In x (if b then y ∷ r else r)
      → ((x ≡ y) × (b ≡ true)) ⊎ In x r
  In-if true y r x (inl e) = inl (e, refl)
  In-if true y r x (inr h) = inr h
  In-if false y r x h = inr h

  pub In-where : (p : A → Bool) (xs : List A) (x : A) → In x (where_ p xs) → In x xs × (p x ≡ true)
  In-where p [] x h = absurd h
  In-where p (y ∷ xs) x h = elim (In-if (p y) y (where_ p xs) x h) [
    | inl e ↦ (inl e.0, rw e.0 e.1)
    | inr m ↦ let (k, t) = In-where p xs x m in (inr k, t)
  ]

  pub where-In : (p : A → Bool) (xs : List A) (x : A) → In x xs → p x ≡ true → In x (where_ p xs)
  where-In p [] x h t = absurd h
  where-In p (y ∷ xs) x (inl e) t = rw (subst (λ z. p z ≡ true) e t) (inl e)
  where-In p (y ∷ xs) x (inr h) t = elim (Bool-cases (p y)) [
    | inl e ↦ rw e (inr (where-In p xs x h t))
    | inr e ↦ rw e (where-In p xs x h t)
  ]

  pub In-take : (n : ℕ) (xs : List A) (x : A) → In x (take n xs) → In x xs
  In-take zero xs x h = absurd h
  In-take (suc n) [] x h = absurd h
  In-take (suc n) (y ∷ xs) x (inl e) = inl e
  In-take (suc n) (y ∷ xs) x (inr h) = inr (In-take n xs x h)

  pub exists_where-find :
      (p : A → Bool) (xs : List A) → exists_where p xs ≡ true → (x : A) × In x xs × (p x ≡ true)
  exists_where-find p [] h = absurd (cc)
  exists_where-find p (y ∷ xs) h = elim (Bool-cases (p y)) [
    | inl e ↦ (y, inl refl, e)
    | inr e ↦ let (x, m, t) = exists_where-find p xs (rw e at h) in (x, inr m, t)
  ]

  pub exists_where-In :
      (p : A → Bool) (xs : List A) (x : A) → In x xs → p x ≡ true → exists_where p xs ≡ true
  exists_where-In p [] x h t = absurd h
  exists_where-In p (y ∷ xs) x (inl e) t = ground arith
  exists_where-In p (y ∷ xs) x (inr h) t = ground (arith, exists_where-In p xs x h t)

  pub exists_where-none :
      (p : A → Bool) (xs : List A) (x : A) → exists_where p xs ≡ false → In x xs → p x ≡ false
  exists_where-none p xs x e m = elim (Bool-cases (p x)) [
    | inl t ↦ cc (exists_where-In p xs x m t)
    | inr t ↦ t
  ]

  -- No row matches: the UPDATE changes nothing and counts nothing.
  pub update-none :
      (p : A → Bool) (f : A → A) (xs : List A)
      → ((x : A) → In x xs → p x ≡ false)
      → (update_where p f xs ≡ xs) × (rowcount p xs ≡ 0)
  update-none p f [] h = (refl, refl)
  update-none p f (x ∷ xs) h =
      let (e, c) = update-none p f xs (λ y m. h y (inr m)) in ground (arith, h x (inl refl), e, c)

  pub rowcount-pos : (p : A → Bool) (xs : List A) (x : A) → In x xs → p x ≡ true → 0 < rowcount p xs
  rowcount-pos p [] x h t = absurd h
  rowcount-pos p (y ∷ xs) x (inl e) t = ground arith
  rowcount-pos p (y ∷ xs) x (inr h) t = ground (arith, rowcount-pos p xs x h t)

module _ {A B : Type 0} where
  pub In-map : (g : A → B) (xs : List A) (y : B) → In y (map g xs) → (x : A) × In x xs × (y ≡ g x)
  In-map g [] y h = absurd h
  In-map g (x ∷ xs) y (inl e) = (x, inl refl, e)
  In-map g (x ∷ xs) y (inr h) = let (z, m, e) = In-map g xs y h in (z, inr m, e)

  pub length-map-where :
      (g : A → B) (p : A → Bool) (xs : List A) → length (map g (where_ p xs)) ≡ rowcount p xs
  length-map-where g p [] = refl
  length-map-where g p (x ∷ xs) = ground (arith, length-map-where g p xs)

module _ {A : Type 0} where
  pub rowcount-update :
      (p : A → Bool) (f : A → A) (xs : List A)
      → ((x : A) → p (f x) ≡ p x)
      → rowcount p (update_where p f xs) ≡ rowcount p xs
  rowcount-update p f [] h = refl
  rowcount-update p f (x ∷ xs) h = ground (arith, h x, rowcount-update p f xs h)

module _ {A : Type 0} where
  pub first_where-snoc :
      (p : A → Bool) (xs : List A) (x : A)
      → first_where p xs ≡ none
      → p x ≡ true
      → first_where p (xs ++ x ∷ []) ≡ some x
  first_where-snoc p [] x h t = rw t
  first_where-snoc p (y ∷ xs) x h t = ground (arith, first_where-snoc p xs x, h, t)

  pub first_where-none :
      (p : A → Bool) (xs : List A) → ((x : A) → In x xs → p x ≡ false) → first_where p xs ≡ none
  first_where-none p [] h = refl
  first_where-none p (y ∷ xs) h =
      ground (arith, h y (inl refl), first_where-none p xs (λ x m. h x (inr m)))

  pub first_where-some :
      (p : A → Bool) (xs : List A) (x : A)
      → In x xs
      → p x ≡ true
      → (y : A) × (first_where p xs ≡ some y)
  first_where-some p [] x m t = absurd m
  first_where-some p (z ∷ xs) x m t = elim (Bool-cases (p z)) [
    | inl e ↦ (z, rw e refl)
    | inr e ↦ elim m [
      | inl q ↦ cc (e, t, q)
      | inr k ↦ let (y, f) = first_where-some p xs x k t in (y, rw e f)
    ]
  ]

  -- the row that is found is a row, and passes the test
  pub first_where-In :
      (p : A → Bool) (xs : List A) (x : A) → first_where p xs ≡ some x → In x xs × (p x ≡ true)
  first_where-In p [] x h = cc
  first_where-In p (y ∷ xs) x h = elim (Bool-cases (p y)) [
    | inl e ↦ let q : some y ≡ some x = rw e at h in let r : y ≡ x = cc in (inl (sym r), rw r at e)
    | inr e ↦ let (m, t) = first_where-In p xs x (rw e at h) in (inr m, t)
  ]

  -- an UPDATE that keeps the test keeps what it finds, changed
  pub first_where-update :
      (p q : A → Bool) (f : A → A) (xs : List A) (x : A)
      → ((y : A) → p (if q y then f y else y) ≡ p y)
      → first_where p xs ≡ some x
      → first_where p (update_where q f xs) ≡ some (if q x then f x else x)
  first_where-update p q f [] x k h = cc
  first_where-update p q f (y ∷ xs) x k h = elim (Bool-cases (p y)) [
    | inl e ↦
        let r : some y ≡ some x = rw e at h in
        let s : y ≡ x = cc in rw (k y, e) (ap (λ z. some (if q z then f z else z)) s)
    | inr e ↦ rw (k y, e) (first_where-update p q f xs x k (rw e at h))
  ]

module _ {A : Type 0} (key : A → ℕ) where
  abbrev pub Distinct : List A → Type 0
  Distinct [] = Unit
  Distinct (x ∷ xs) = ((y : A) → In y xs → key y ≢ key x) × Distinct xs

  pub Distinct-eq :
      (xs : List A) (x y : A) → Distinct xs → In x xs → In y xs → key x ≡ key y → x ≡ y
  Distinct-eq [] x y d hx hy e = absurd hx
  Distinct-eq (z ∷ xs) x y d (inl a) (inl b) e = a ∙ sym b
  Distinct-eq (z ∷ xs) x y d (inl a) (inr b) e = absurd (d.0 y b (cc))
  Distinct-eq (z ∷ xs) x y d (inr a) (inl b) e = absurd (d.0 x a (cc))
  Distinct-eq (z ∷ xs) x y d (inr a) (inr b) e = Distinct-eq xs x y d.1 a b e

  pub Distinct-update :
      (p : A → Bool) (f : A → A) (xs : List A)
      → ((x : A) → key (f x) ≡ key x)
      → Distinct xs
      → Distinct (update_where p f xs)
  Distinct-update p f [] h d = tt
  Distinct-update p f (x ∷ xs) h d = (apart, Distinct-update p f xs h d.1)
    where
      keep : (z : A) → key (if p z then f z else z) ≡ key z
      keep z = ground (arith, h z)

      apart : (y : A) → In y (update_where p f xs) → key y ≢ key (if p x then f x else x)
      apart y m e = let (z, mz, ez) = In-update p f xs y m in d.0 z mz (cc (keep z, keep x))

  pub Distinct-snoc :
      (xs : List A) (a : A)
      → ((x : A) → In x xs → key x ≢ key a)
      → Distinct xs
      → Distinct (xs ++ a ∷ [])
  Distinct-snoc [] a h d = (λ y m. absurd m, tt)
  Distinct-snoc (x ∷ xs) a h d = (apart, Distinct-snoc xs a (λ y m. h y (inr m)) d.1)
    where
      apart : (y : A) → In y (xs ++ a ∷ []) → key y ≢ key x
      apart y m = elim (In-append xs (a ∷ []) y m) [
        | inl k ↦ d.0 y k
        | inr k ↦ elim k [ inl e ↦ λ q. h x (inl refl) (cc) | inr k' ↦ absurd k' ]
      ]

  -- A test that picks one key matches at most one row.
  pub rowcount-le-one :
      (p : A → Bool) (k : ℕ) (xs : List A)
      → ((x : A) → p x ≡ true → key x ≡ k)
      → Distinct xs
      → rowcount p xs ≤ 1
  rowcount-le-one p k [] h d = omega arith
  rowcount-le-one p k (x ∷ xs) h d = elim (Bool-cases (p x)) [
    | inl e ↦ rw (e, (update-none p (λ y. y) xs (λ y m. others e y m)).1) (omega arith)
    | inr e ↦ rw e (rowcount-le-one p k xs h d.1)
  ]
    where
      others : p x ≡ true → (y : A) → In y xs → p y ≡ false
      others e y m = elim (Bool-cases (p y)) [
        | inl t ↦ absurd (d.0 y m (h y t ∙ sym (h x e)))
        | inr t ↦ t
      ]

  pub rowcount-one :
      (p : A → Bool) (k : ℕ) (xs : List A) (x : A)
      → ((y : A) → p y ≡ true → key y ≡ k)
      → Distinct xs
      → In x xs
      → p x ≡ true
      → (rowcount p xs == 1) ≡ true
  rowcount-one p k xs x h d m t =
      ground (arith, rowcount-le-one p k xs h d, rowcount-pos p xs x m t)
