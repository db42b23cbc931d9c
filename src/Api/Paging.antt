-- ===== src/Api/Paging.antt =====
-- apps/api/paging.py, and the keyset query of the listings that it pages. A cursor stands for the pair
-- that its text encodes; `created` and `id` are the row's keys, the uuid an opaque number.
pub mod Ordered
pub mod Whole
use unified_search_safe_send.Prelude.{
  ℕ, zero, suc, Bool, true, false, not, ◌&&◌, ◌||◌, Option, none, some, List, [], ◌∷◌, ◌++◌, ◌==◌,
  ltb, leb, if◌then◌else◌, length, take, where_, last,
}

pub record Cursor : Type 0 where
  pub created_at : ℕ
  pub row_id : ℕ

module _ {A : Type 0} (created id : A → ℕ) where
  abbrev pub cursor_of : A → Cursor
  cursor_of a = record { created_at = created a; row_id = id a }

  -- `(created_at, id) < (cursor_at, cursor_id)`, or no cursor
  abbrev pub is_older : Option Cursor → A → Bool
  is_older none a = true
  is_older (some c) a =
      ltb (created a) c.created_at || (created a == c.created_at && ltb (id a) c.row_id)

  -- ORDER BY created_at DESC, id DESC
  abbrev pub insert_newest : A → List A → List A
  insert_newest a [] = a ∷ []
  insert_newest a (x ∷ xs) =
      let rest = insert_newest a xs in
      if is_older (some (cursor_of a)) x then a ∷ x ∷ xs else x ∷ rest

  abbrev pub newest_first : List A → List A
  newest_first [] = []
  newest_first (x ∷ xs) = insert_newest x (newest_first xs)

  -- WHERE `visible` AND older than the cursor, ORDER BY, LIMIT
  unfoldable pub select : (A → Bool) → Option Cursor → ℕ → List A → List A
  select visible cursor limit rows =
      take limit (newest_first (where_ (λ a. visible a && is_older cursor a) rows))

  abbrev pub next_cursor : Option A → Option Cursor
  next_cursor none = none
  next_cursor (some a) = some (cursor_of a)

  -- the page and the next cursor of rows that were fetched with `limit + 1`
  unfoldable pub page : ℕ → List A → List A × Option Cursor
  page limit rows =
      if leb (length rows) limit
      then (rows, none)
      else (take limit rows, next_cursor (last (take limit rows)))

  -- a listing's answer
  unfoldable pub listing : (A → Bool) → Option Cursor → ℕ → List A → List A × Option Cursor
  listing visible cursor limit rows = page limit (select visible cursor (suc limit) rows)

-- a client that follows the cursors of a listing from one on, at most so many pages far
unfoldable pub follow :
    {A : Type 0} → ℕ → (Option Cursor → List A × Option Cursor) → Option Cursor → List A
follow zero answers cursor = []
follow (suc pages) answers cursor =
    let answer = answers cursor in
    elim answer.1 [ none ↦ answer.0 | some c ↦ answer.0 ++ follow pages answers (some c) ]
