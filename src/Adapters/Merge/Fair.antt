-- ===== src/Adapters/Merge/Fair.antt =====
-- A merged page against what the sources returned.
use unified_search_safe_send.Prelude.{
  ℕ, suc, ◌≤◌, ◌≡◌, ◌≢◌, refl, sym, ap, ◌∙◌, inl, inr, Bool, List, [], ◌∷◌, ◌++◌, String, arith,
  str_eq, eq_iff, Bool-cases, length, take-all, length-take-le, map, rowcount, In, In-append,
}
use unified_search_safe_send.Adapters.Merge.{
  Ranked, Bucket, source_of, item_leb, insert_by, sort_by, add, fill, cap_bucket, merge,
}
use unified_search_safe_send.Adapters.Merge.Counts.{
  rowcount-sort, total, total-fill, Fits, rowcount-rounds,
}

abbrev pub is_from : String → Ranked → Bool
is_from source item = str_eq (source_of item) source

-- each bucket holds rows of its own source
abbrev Pure : List Bucket → Type 0
Pure [] = Unit
Pure (b ∷ bs) = ((item : Ranked) → In item b.1 → source_of item ≡ b.0) × Pure bs

abbrev NoKey : String → List Bucket → Type 0
NoKey s [] = Unit
NoKey s (b ∷ bs) = (b.0 ≢ s) × NoKey s bs

-- one bucket for a source
abbrev OneEach : List Bucket → Type 0
OneEach [] = Unit
OneEach (b ∷ bs) = NoKey b.0 bs × OneEach bs

add-Pure : (bs : List Bucket) (item : Ranked) → Pure bs → Pure (add bs item)
add-Pure [] item h = (λ x m. elim m [ inl e ↦ ap source_of e | inr k ↦ absurd k ], tt)
add-Pure ((s, items) ∷ bs) item h = elim (Bool-cases (str_eq s (source_of item))) [
  | inl e ↦ rw e (grown ((eq_iff s (source_of item)).0 e), h.1)
  | inr e ↦ rw e (h.0, add-Pure bs item h.1)
]
  where
    grown : s ≡ source_of item → (x : Ranked) → In x (items ++ item ∷ []) → source_of x ≡ s
    grown q x m = elim (In-append items (item ∷ []) x m) [
      | inl k ↦ h.0 x k
      | inr (inl e) ↦ ap source_of e ∙ sym q
      | inr (inr k) ↦ absurd k
    ]

fill-Pure : (bs : List Bucket) (xs : List Ranked) → Pure bs → Pure (fill bs xs)
unfolding fill
fill-Pure bs [] h = h
fill-Pure bs (x ∷ xs) h = fill-Pure (add bs x) xs (add-Pure bs x h)

cap-Fits : (cap : ℕ) (bs : List Bucket) → Fits cap (map (cap_bucket cap) bs)
cap-Fits cap [] = tt
cap-Fits cap (b ∷ bs) = (length-take-le cap (sort_by item_leb b.1), cap-Fits cap bs)

pure-length :
    (s : String) (xs : List Ranked)
    → ((x : Ranked) → In x xs → source_of x ≡ s)
    → rowcount (is_from s) xs ≡ length xs
pure-length s [] h = refl
pure-length s (x ∷ xs) h =
    ground
      (arith, (eq_iff (source_of x) s).1 (h x (inl refl)), pure-length s xs (λ y m. h y (inr m)))

few-Fits :
    (cap : ℕ) (bs : List Bucket)
    → Pure bs
    → ((s : String) → total (is_from s) bs ≤ cap)
    → Fits cap bs
few-Fits cap [] h few = tt
few-Fits cap (b ∷ bs) h few = (
  omega (arith, pure-length b.0 b.1 h.0, few b.0),
  few-Fits cap bs h.1 (λ s. omega (arith, few s)),
)

length-insert :
    (leb : Ranked → Ranked → Bool) (a : Ranked) (xs : List Ranked)
    → length (insert_by leb a xs) ≡ suc (length xs)
length-insert leb a [] = refl
length-insert leb a (x ∷ xs) = ground (arith, length-insert leb a xs)

length-sort :
    (leb : Ranked → Ranked → Bool) (xs : List Ranked) → length (sort_by leb xs) ≡ length xs
length-sort leb [] = refl
length-sort leb (x ∷ xs) = omega (arith, length-insert leb x (sort_by leb xs), length-sort leb xs)

total-uncapped :
    (p : Ranked → Bool) (cap : ℕ) (bs : List Bucket)
    → Fits cap bs
    → total p (map (cap_bucket cap) bs) ≡ total p bs
total-uncapped p cap [] h = refl
total-uncapped p cap (b ∷ bs) h =
    let whole =
      take-all cap (sort_by item_leb b.1) (omega (arith, length-sort item_leb b.1, h.0)) in
    omega (arith, ap (rowcount p) whole, rowcount-sort p item_leb b.1, total-uncapped p cap bs h.1)

-- Where no source returned more rows than the cap, a merged page has the rows that were ranked, each
-- as often: any test counts as many in the page as before.
pub merge-keeps_rows :
    (cap : ℕ) (ranked : List Ranked) (p : Ranked → Bool)
    → ((source : String) → rowcount (is_from source) ranked ≤ cap)
    → rowcount p (merge cap ranked) ≡ rowcount p ranked
unfolding merge
merge-keeps_rows cap ranked p few =
    rowcount-rounds p cap (map (cap_bucket cap) (fill [] ranked)) (cap-Fits cap (fill [] ranked))
    ∙ total-uncapped p cap (fill [] ranked) (
        few-Fits cap (fill [] ranked) (fill-Pure [] ranked tt)
          (λ s. omega (arith, total-fill (is_from s) [] ranked, few s)))
    ∙ omega (arith, total-fill p [] ranked)
