-- ===== src/Jobs/Claim.antt =====
-- `claim` of packages/core/jobs/queue.py: the one statement that leases ready jobs to a worker. Rows
-- that other transactions hold are skipped: `locked` says which. The stages are the statement's own:
-- `candidates` (WHERE, ORDER BY, LIMIT), `picked` (DISTINCT ON) and the UPDATE.
pub mod Picked
pub mod Leased
pub mod Safety
pub mod Ceiling
pub mod Lease
use unified_search_safe_send.Prelude.{
  ℕ, ◌+◌, ◌*◌, Bool, true, false, not, ◌&&◌, Option, none, some, List, [], ◌∷◌, String, map, ltb,
  leb, ◌==◌, str_eq, if◌then◌else◌, coalesce, or_default, update_where, where_, exists_where, take,
}
use unified_search_safe_send.Prelude.Text.{◌<>◌, show}
use unified_search_safe_send.Enums.{JobKind, adapter_run, send, running}
use unified_search_safe_send.Jobs.Backoff.{second}
use unified_search_safe_send.Jobs.Table.{
  Job, Jobs, ClaimedJob, from_row, is_ready, is_running, sql_eq,
}

-- NOT EXISTS (a running row with the same partition key), or no partition key
abbrev pub partition_free : List Job → Option String → Bool
partition_free rows none = true
partition_free rows (some k) =
    not (exists_where (λ r. is_running r.state && sql_eq r.partition_key (some k)) rows)

abbrev pub eligible : ℕ → (ℕ → Bool) → List Job → Job → Bool
eligible now locked rows j =
    is_ready j.state
    && (leb j.run_at now
        && (ltb j.attempts j.max_attempts
            && (partition_free rows j.partition_key && not (locked j.id))))

-- ORDER BY priority DESC, run_at, id
unfoldable pub before : Job → Job → Bool
before j k =
    if ltb k.priority j.priority
    then true
    else if ltb j.priority k.priority
    then false
    else if ltb j.run_at k.run_at
    then true
    else if ltb k.run_at j.run_at
    then false
    else leb j.id k.id

unfoldable pub insert_job : Job → List Job → List Job
insert_job j [] = j ∷ []
insert_job j (k ∷ ks) = let rest = insert_job j ks in if before j k then j ∷ k ∷ ks else k ∷ rest

unfoldable pub sort_jobs : List Job → List Job
sort_jobs [] = []
sort_jobs (j ∷ js) = insert_job j (sort_jobs js)

unfoldable pub candidates : ℕ → (ℕ → Bool) → ℕ → List Job → List Job
candidates now locked limit rows = take limit (sort_jobs (where_ (eligible now locked rows) rows))

-- COALESCE(partition_key, 'job:' || id)
unfoldable pub claim_key : Job → String
claim_key j = or_default j.partition_key ("job:" <> show j.id)

-- DISTINCT ON (claim_key): the first row of each key. The candidates come in the order that the
-- stage's ORDER BY asks for within a key. `seen` holds the keys that are taken.
unfoldable pub distinct_on : List String → List Job → List Job
distinct_on seen [] = []
distinct_on seen (c ∷ cs) =
    let skip = distinct_on seen cs in
    let keep = c ∷ distinct_on (claim_key c ∷ seen) cs in
    if exists_where (str_eq (claim_key c)) seen then skip else keep

abbrev pub is_picked : List Job → Job → Bool
is_picked picked j = exists_where (λ c. c.id == j.id) picked

-- the lease by kind, in seconds
abbrev pub lease_for : JobKind → ℕ → ℕ → ℕ
lease_for send lease send_lease = send_lease
lease_for adapter_run lease send_lease = lease

abbrev pub set_claimed : ℕ → String → ℕ → ℕ → Job → Job
set_claimed now worker lease send_lease j = record j {
  state = running;
  attempts = j.attempts + 1;
  claimed_at = some now;
  claimed_by = some worker;
  lease_expires_at = some (now + lease_for j.kind lease send_lease * second);
  started_at = coalesce j.started_at (some now);
  updated_at = now;
}

abbrev pub picked_rows : ℕ → (ℕ → Bool) → ℕ → List Job → List Job
picked_rows now locked limit rows = distinct_on [] (candidates now locked limit rows)

unfoldable pub claim : ℕ → (ℕ → Bool) → Jobs → String → ℕ → ℕ → Option ℕ → List ClaimedJob × Jobs
claim now locked t worker limit lease_seconds send_lease_seconds =
    let picked = picked_rows now locked limit t.rows in
    let send_lease = or_default send_lease_seconds lease_seconds in
    let rows =
      update_where (is_picked picked) (set_claimed now worker lease_seconds send_lease) t.rows in
    (map from_row (where_ (is_picked picked) rows), record t { rows = rows })
