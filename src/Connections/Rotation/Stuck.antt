-- ===== src/Connections/Rotation/Stuck.antt =====
-- The script's loop on a table with a row that it cannot read.
use unified_search_safe_send.Prelude.{
  ℕ, zero, suc, ◌<◌, ◌≡◌, refl, sym, ap, ◌⊎◌, inl, inr, Bool, true, false, some, List, String, [],
  ◌∷◌, arith, leb, ==_iff, Bool-cases, Option-cases, In, In-take, In-where, where-In, update-In,
  In-branch, Distinct, Distinct-eq, Distinct-update, take, where_, update_where,
}
use unified_search_safe_send.Security.Crypto.{
  Bytes, CryptoResult, done, key_not_found, envelope_error, overflow_error, Cipher, Keyring, Field,
  access, refresh, bot, aad_for, key_for, decrypt,
}
use unified_search_safe_send.Security.Crypto.Envelope.{encrypt-envelope}
use unified_search_safe_send.Connections.Row.{Connection}
use unified_search_safe_send.Connections.Store.{column, has_id}
use unified_search_safe_send.Connections.Rotation.{
  is_crashed, is_stale, insert_by_id, order_by_id, free_stale, select_batch, reseal, row_is_broken,
  row_crashes, set_rotated, Progress, rotate_row, rotate_rows, running_on, rotate,
}

In-insert :
    (c : Connection) (xs : List Connection) (x : Connection)
    → In x (insert_by_id c xs)
    → (x ≡ c) ⊎ In x xs
In-insert c [] x m = m
In-insert c (y ∷ ys) x m =
    elim (In-branch (leb c.id y.id) (c ∷ y ∷ ys) (y ∷ insert_by_id c ys) x m) [
      | inl (_, k) ↦ k
      | inr (_, inl e) ↦ inr (inl e)
      | inr (_, inr k) ↦ elim (In-insert c ys x k) [ inl e ↦ inl e | inr l ↦ inr (inr l) ]
    ]

In-order : (xs : List Connection) (x : Connection) → In x (order_by_id xs) → In x xs
In-order [] x m = m
In-order (y ∷ ys) x m = elim (In-insert y (order_by_id ys) x m) [
  | inl e ↦ inl e
  | inr k ↦ inr (In-order ys x k)
]

-- the rows of a batch are rows of the table
In-select :
    (locked : Connection → Bool) (target batch : ℕ) (cs : List Connection) (x : Connection)
    → In x (select_batch locked target batch cs)
    → In x cs
unfolding select_batch
In-select locked target batch cs x m =
    (In-where (free_stale locked target) cs x (
      In-order (where_ (free_stale locked target) cs) x
        (In-take batch (order_by_id (where_ (free_stale locked target) cs)) x m))).0

insert-cons :
    (c : Connection) (xs : List Connection)
    → (y : Connection) × (ys : List Connection) × (insert_by_id c xs ≡ y ∷ ys)
insert-cons c [] = (c, [], refl)
insert-cons c (x ∷ xs) = elim (Bool-cases (leb c.id x.id)) [
  | inl e ↦ (c, x ∷ xs, rw e refl)
  | inr e ↦ (x, insert_by_id c xs, rw e refl)
]

-- while a stale row is free, there is a next batch
select-cons :
    (locked : Connection → Bool) (target batch : ℕ) (cs : List Connection) (b : Connection)
    → In b cs
    → free_stale locked target b ≡ true
    → (y : Connection) × (ys : List Connection) × (select_batch locked target (suc batch) cs
        ≡ y ∷ ys)
unfolding select_batch
select-cons locked target batch cs b m t =
    some_row (where_ (free_stale locked target) cs) (where-In (free_stale locked target) cs b m t)
  where
    some_row :
        (xs : List Connection)
        → In b xs
        → (y : Connection) × (ys : List Connection) × (take (suc batch) (order_by_id xs) ≡ y ∷ ys)
    some_row [] m = absurd m
    some_row (x ∷ xs) m =
        let (y, ys, e) = insert-cons x (order_by_id xs) in (y, take batch ys, rw e refl)

module _ (cipher : Cipher) (ring : Keyring) (nonces : ℕ → Field → Bytes) where
  -- the current key is there, so that sealing again does not fail
  reseal-runs :
      (key : String) (c : Connection) (field : Field)
      → key_for ring ring.current ≡ done key
      → ring.current < 65536
      → is_crashed (reseal cipher ring nonces c field) ≡ false
  unfolding reseal
  reseal-runs key c field k v = elim (Option-cases (column c field)) [
    | inl e ↦ ground (arith, e)
    | inr (blob, e) ↦ by_blob blob e (decrypt cipher ring blob (aad_for c.id c.provider field)) refl
  ]
    where
      by_blob :
          (blob : Bytes)
          → column c field ≡ some blob
          → (o : CryptoResult String) → decrypt cipher ring blob (aad_for c.id c.provider field) ≡ o
          → is_crashed (reseal cipher ring nonces c field) ≡ false
      by_blob blob e (done plaintext) d = ground (
        arith,
        e,
        d,
        encrypt-envelope cipher ring (nonces c.id field) plaintext (aad_for c.id c.provider field)
            key k v,
      )
      by_blob blob e key_not_found d = ground (arith, e, d)
      by_blob blob e envelope_error d = ground (arith, e, d)
      by_blob blob e overflow_error d = ground (arith, e, d)

  -- the unreadable row stands in the table, under ids that are distinct
  record Kept (b : Connection) (p : Progress) : Type 0 where
    stands : In b p.table
    distinct : Distinct (λ (c : Connection). c.id) p.table

  runs :
      (key : String) (c : Connection)
      → key_for ring ring.current ≡ done key
      → ring.current < 65536
      → row_crashes cipher ring nonces c ≡ false
  runs key c k v = ground (
    arith,
    reseal-runs key c access k v,
    reseal-runs key c refresh k v,
    reseal-runs key c bot k v,
  )

  row-Kept :
      (key : String) (b row : Connection) (p : Progress)
      → key_for ring ring.current ≡ done key
      → ring.current < 65536
      → row_is_broken cipher ring nonces b ≡ true
      → (row.id ≡ b.id → row ≡ b)
      → Kept b p
      → (next : Progress) × (rotate_row cipher ring nonces true row p ≡ some next) × Kept b next
  unfolding rotate_row
  row-Kept key b row p k v broken own h = elim (Bool-cases (row_is_broken cipher ring nonces row)) [
    | inl e ↦ (
      record p { failed = suc p.failed },
      ground (arith, e, runs key row k v),
      record { stands = h.stands; distinct = h.distinct },
    )
    | inr e ↦ (
      record p {
        table = update_where (has_id row.id) (set_rotated cipher ring nonces row) p.table;
        rotated = suc p.rotated;
      },
      ground (arith, e, runs key row k v),
      record {
        stands = untouched e;
        distinct =
            Distinct-update (λ (c : Connection). c.id) (has_id row.id)
              (set_rotated cipher ring nonces row) p.table (λ c. refl) h.distinct;
      },
    )
  ]
    where
      untouched :
          row_is_broken cipher ring nonces row ≡ false
          → In b (update_where (has_id row.id) (set_rotated cipher ring nonces row) p.table)
      untouched e = elim (Bool-cases (has_id row.id b)) [
        | inl t ↦ absurd (
            ground (
              arith,
              e,
              broken,
              ap (row_is_broken cipher ring nonces) (own (sym ((==_iff b.id row.id).0 t))),
            ))
        | inr t ↦
            let m =
              update-In (has_id row.id) (set_rotated cipher ring nonces row) p.table b h.stands in
            rw t at m
      ]

  rows-Kept :
      (key : String) (b : Connection) (rows : List Connection) (p : Progress)
      → key_for ring ring.current ≡ done key
      → ring.current < 65536
      → row_is_broken cipher ring nonces b ≡ true
      → ((row : Connection) → In row rows → row.id ≡ b.id → row ≡ b)
      → Kept b p
      → (next : Progress) × (rotate_rows cipher ring nonces true rows p ≡ some next) × Kept b next
  unfolding rotate_rows
  rows-Kept key b [] p k v broken own h = (p, refl, h)
  rows-Kept key b (row ∷ rows) p k v broken own h =
      let (mid, e, hm) = row-Kept key b row p k v broken (own row (inl refl)) h in
      let (next, f, hn) = rows-Kept key b rows mid k v broken (λ r m. own r (inr m)) hm in
      (next, rw (e, rotate_rows) f, hn)

  -- The script with `--apply`, a batch of at least one row and a keyring that holds its current key
  -- under a version of two bytes, on a table with distinct ids that has a row of an older version
  -- with an unreadable token, which no other session holds: it does not end in any number of passes.
  pub rotate_runs_on :
      (key : String) (b : Connection) (locked : ℕ → Connection → Bool) (batch passes : ℕ)
      (p : Progress)
      → key_for ring ring.current ≡ done key
      → ring.current < 65536
      → row_is_broken cipher ring nonces b ≡ true
      → is_stale ring.current b ≡ true
      → ((n : ℕ) → locked n b ≡ false)
      → In b p.table
      → Distinct (λ c. c.id) p.table
      → rotate cipher ring nonces passes locked true (suc batch) p ≡ running_on
  unfolding rotate
  rotate_runs_on key b locked batch zero p k v broken stale free m d = refl
  rotate_runs_on key b locked batch (suc passes) p k v broken stale free m d =
      let (y, ys, e) =
        select-cons (locked passes) ring.current batch p.table b m
          (ground (arith, stale, free passes)) in
      let (next, f, h) =
        rows-Kept key b (y ∷ ys) p k v broken
          (λ row mr same.
            Distinct-eq (λ (c : Connection). c.id) p.table row b d
              (In-select (locked passes) ring.current (suc batch) p.table row (rw e mr)) m same)
          (record { stands = m; distinct = d }) in
      rw (rotate, e, f)
        (rotate_runs_on key b locked batch passes next k v broken stale free h.stands h.distinct)
