-- ===== src/Connections/Rotation.antt =====
-- scripts/rotate_keys.py: sealing the stored tokens again under the keyring's current version.
-- Rows that other sessions hold are a predicate, the nonces an argument of the row and the column.
-- The script's loop has no bound, so the model runs it for a number of passes and says `none` where
-- that number is not enough.
pub mod Stuck
pub mod Hidden
use unified_search_safe_send.Prelude.{
  ℕ, suc, zero, ◌+◌, Bool, true, false, not, ◌&&◌, ◌||◌, Option, none, some, List, [], ◌∷◌, ltb,
  leb, if◌then◌else◌, coalesce, take, where_, update_where,
}
use unified_search_safe_send.Security.Crypto.{
  Bytes, CryptoResult, done, key_not_found, envelope_error, overflow_error, Cipher, Keyring, Field,
  access, refresh, bot, aad_for, encrypt, decrypt,
}
use unified_search_safe_send.Connections.Row.{Connection}
use unified_search_safe_send.Connections.Store.{column, has_id}

-- one column: empty, sealed again, unreadable, or a failure of the current key
pub data Resealed : Type 0 where
  empty : Resealed
  resealed : Bytes → Resealed
  broken : Resealed
  crashed : Resealed

abbrev pub is_broken : Resealed → Bool
is_broken broken = true
is_broken _ = false

abbrev pub is_crashed : Resealed → Bool
is_crashed crashed = true
is_crashed _ = false

abbrev pub new_blob : Resealed → Option Bytes
new_blob (resealed blob) = some blob
new_blob _ = none

-- `key_version < :target`
abbrev pub is_stale : ℕ → Connection → Bool
is_stale target c = ltb c.key_version target

abbrev pub insert_by_id : Connection → List Connection → List Connection
insert_by_id c [] = c ∷ []
insert_by_id c (x ∷ xs) =
    let rest = insert_by_id c xs in if leb c.id x.id then c ∷ x ∷ xs else x ∷ rest

-- ORDER BY id
abbrev pub order_by_id : List Connection → List Connection
order_by_id [] = []
order_by_id (x ∷ xs) = insert_by_id x (order_by_id xs)

abbrev pub free_stale : (Connection → Bool) → ℕ → Connection → Bool
free_stale locked target c = is_stale target c && not (locked c)

unfoldable pub select_batch : (Connection → Bool) → ℕ → ℕ → List Connection → List Connection
select_batch locked target batch cs =
    take batch (order_by_id (where_ (free_stale locked target) cs))

pub record Progress : Type 0 where
  pub table : List Connection
  pub rotated : ℕ
  pub failed : ℕ

pub data Ended : Type 0 where
  finished : Progress → Ended
  aborted : Ended
  running_on : Ended

module _ (cipher : Cipher) (ring : Keyring) (nonces : ℕ → Field → Bytes) where
  unfoldable pub reseal : Connection → Field → Resealed
  reseal c field = elim (column c field) [
    | none ↦ empty
    | some blob ↦ elim (decrypt cipher ring blob (aad_for c.id c.provider field)) [
      | done plaintext ↦
          elim (encrypt cipher ring (nonces c.id field) plaintext (aad_for c.id c.provider field)) [
            | done again ↦ resealed again
            | _ ↦ crashed
          ]
      | _ ↦ broken
    ]
  ]

  abbrev pub row_is_broken : Connection → Bool
  row_is_broken c =
      is_broken (reseal c access) || (is_broken (reseal c refresh) || is_broken (reseal c bot))

  abbrev pub row_crashes : Connection → Bool
  row_crashes c =
      is_crashed (reseal c access) || (is_crashed (reseal c refresh) || is_crashed (reseal c bot))

  abbrev pub set_rotated : Connection → Connection → Connection
  set_rotated row c = record c {
    access_token_ct = coalesce (new_blob (reseal row access)) c.access_token_ct;
    refresh_token_ct = coalesce (new_blob (reseal row refresh)) c.refresh_token_ct;
    bot_token_ct = coalesce (new_blob (reseal row bot)) c.bot_token_ct;
    key_version = ring.current;
  }

  -- one row of a batch; `none` is an exception that ends the script
  unfoldable pub rotate_row : Bool → Connection → Progress → Option Progress
  rotate_row apply row p =
      if row_crashes row
      then none
      else if row_is_broken row
      then some (record p { failed = suc p.failed })
      else if apply
      then some (record p {
        table = update_where (has_id row.id) (set_rotated row) p.table;
        rotated = suc p.rotated;
      })
      else some (record p { rotated = suc p.rotated })

  unfoldable pub rotate_rows : Bool → List Connection → Progress → Option Progress
  rotate_rows apply [] p = some p
  rotate_rows apply (row ∷ rows) p = elim (rotate_row apply row p) [
    | none ↦ none
    | some next ↦ rotate_rows apply rows next
  ]

  -- `locked n` are the rows that others hold in the n-th pass from the end
  unfoldable pub rotate : ℕ → (ℕ → Connection → Bool) → Bool → ℕ → Progress → Ended
  rotate zero locked apply batch p = running_on
  rotate (suc passes) locked apply batch p =
      elim (select_batch (locked passes) ring.current batch p.table) [
        | [] ↦ finished p
        | row ∷ rows ↦ elim (rotate_rows apply (row ∷ rows) p) [
          | none ↦ aborted
          | some next ↦ if apply then rotate passes locked apply batch next else finished next
        ]
      ]
