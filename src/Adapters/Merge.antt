-- ===== src/Adapters/Merge.antt =====
-- packages/core/adapters/merge.py. A score is a float that is never negative, and stands as its IEEE
-- bit pattern, whose order as a number is the float's; `recency` and `score` compute these patterns
-- from a time and from a rank, and are arguments. `naive` says which texts give a time without an offset.
pub mod Counts
pub mod Fair
use Prim.Native.Char.{code}
use unified_search_safe_send.Prelude.{
  ℕ, zero, suc, Bool, true, false, not, ◌&&◌, ◌||◌, Option, none, some, List, [], ◌∷◌, ◌++◌, String,
  ◌==◌, ltb, str_eq, if◌then◌else◌, take, map,
}
use unified_search_safe_send.Adapters.Types.{Result, occurred_at}

pub record Ranked : Type 0 where
  pub result : Result
  pub source_rank : ℕ
  pub recency_weight : ℕ
  pub blended_score : ℕ

abbrev pub per_source_cap : ℕ
per_source_cap = 10

-- `now - occurred_at` raises a TypeError for a time without an offset
abbrev pub is_offset_naive : (String → Bool) → Result → Bool
is_offset_naive naive r = elim r.timestamp [ none ↦ false | some raw ↦ naive raw ]

-- `none` is that TypeError
unfoldable pub rank_from :
    (Option ℕ → ℕ)
    → (ℕ → Option ℕ → ℕ)
    → (String → Option ℕ)
    → (String → Bool)
    → ℕ
    → List Result
    → Option (List Ranked)
rank_from recency score parse_iso8601 naive position [] = some []
rank_from recency score parse_iso8601 naive position (r ∷ rs) =
    let rest = rank_from recency score parse_iso8601 naive (suc position) rs in
    let item : Ranked = record {
      result = r;
      source_rank = position;
      recency_weight = recency (occurred_at parse_iso8601 r);
      blended_score = score position (occurred_at parse_iso8601 r);
    } in
    if is_offset_naive naive r
    then none
    else elim rest [ none ↦ none | some items ↦ some (item ∷ items) ]

-- `enumerate(results, start=1)`
unfoldable pub rank_within_source :
    (Option ℕ → ℕ)
    → (ℕ → Option ℕ → ℕ)
    → (String → Option ℕ)
    → (String → Bool)
    → List Result
    → Option (List Ranked)
unfolding rank_from
rank_within_source recency score parse_iso8601 naive results =
    rank_from recency score parse_iso8601 naive 1 results

-- `<=` of texts, by code points
unfoldable pub str_leb : String → String → Bool
str_leb String.[] t = true
str_leb (String.◌∷◌ c s) String.[] = false
str_leb (String.◌∷◌ c s) (String.◌∷◌ d t) =
    let rest = str_leb s t in if code c == code d then rest else ltb (code c) (code d)

-- the order of the key (-score, name)
unfoldable pub key_leb : ℕ → String → ℕ → String → Bool
key_leb score name score' name' = if score == score' then str_leb name name' else ltb score' score

abbrev pub source_of : Ranked → String
source_of item = item.result.source

abbrev pub item_leb : Ranked → Ranked → Bool
item_leb a b = key_leb a.blended_score a.result.id b.blended_score b.result.id

-- a stable sort
abbrev pub insert_by {ℓ} : {A : Type ℓ} → (A → A → Bool) → A → List A → List A
insert_by leb a [] = a ∷ []
insert_by leb a (x ∷ xs) = let rest = insert_by leb a xs in if leb a x then a ∷ x ∷ xs else x ∷ rest

abbrev pub sort_by {ℓ} : {A : Type ℓ} → (A → A → Bool) → List A → List A
sort_by leb [] = []
sort_by leb (x ∷ xs) = insert_by leb x (sort_by leb xs)

abbrev pub Bucket : Type 0
Bucket = String × List Ranked

-- `buckets.setdefault(source, []).append(item)`
abbrev pub add : List Bucket → Ranked → List Bucket
add [] item = (source_of item, item ∷ []) ∷ []
add ((source, items) ∷ rest) item =
    let later = add rest item in
    if str_eq source (source_of item)
    then (source, items ++ item ∷ []) ∷ rest
    else (source, items) ∷ later

unfoldable pub fill : List Bucket → List Ranked → List Bucket
fill buckets [] = buckets
fill buckets (item ∷ items) = fill (add buckets item) items

abbrev pub cap_bucket : ℕ → Bucket → Bucket
cap_bucket cap b = (b.0, take cap (sort_by item_leb b.1))

-- the best remaining row of each source that has one
unfoldable pub heads : List Bucket → List Ranked
heads [] = []
heads ((source, []) ∷ rest) = heads rest
heads ((source, item ∷ items) ∷ rest) = item ∷ heads rest

abbrev pub tail : List Ranked → List Ranked
tail [] = []
tail (item ∷ items) = items

abbrev pub pop : Bucket → Bucket
pop b = (b.0, tail b.1)

abbrev pub head_leb : Ranked → Ranked → Bool
head_leb a b = key_leb a.blended_score (source_of a) b.blended_score (source_of b)

-- A round takes a row from each source, so that as many rounds as a bucket has rows empty it.
unfoldable pub rounds : ℕ → List Bucket → List Ranked
rounds zero buckets = []
rounds (suc n) buckets = sort_by head_leb (heads buckets) ++ rounds n (map pop buckets)

unfoldable pub merge : ℕ → List Ranked → List Ranked
merge cap ranked = rounds cap (map (cap_bucket cap) (fill [] ranked))
