-- ===== src/Send/Claim.antt =====
-- packages/core/send/claim.py. The conditional INSERT and the read after it are two statements, and
-- under READ COMMITTED other transactions commit between them: `between` is the table as the read of
-- a try finds it, `next` as the next try's INSERT finds it. `before` is the table as the first INSERT
-- finds it, from that of the gate's own look at the key before the claim. Within a try the INSERT conflicts exactly
-- with a row that the table holds.
pub mod Winner
use unified_search_safe_send.Prelude.{
  ℕ, zero, suc, ◌+◌, Bool, true, false, ◌&&◌, Option, none, some, List, [], ◌∷◌, ◌++◌, String, ◌==◌,
  str_eq, first_where, if◌then◌else◌, is_some,
}
use unified_search_safe_send.Enums.{ProviderKind, in_flight}
use unified_search_safe_send.Send.Row.{Send}

pub record ClaimArgs : Type 0 where
  pub user_id : ℕ
  pub draft_id : ℕ
  pub connection_id : ℕ
  pub provider : ProviderKind
  pub idempotency_key : String
  pub confirmed_sha256 : String

-- the row that the INSERT writes, with the defaults of its columns
unfoldable pub new_send : ℕ → ℕ → ClaimArgs → Send
new_send now id a = record {
  id = id;
  user_id = a.user_id;
  draft_id = a.draft_id;
  connection_id = a.connection_id;
  provider = a.provider;
  idempotency_key = a.idempotency_key;
  state = in_flight;
  confirmed_sha256 = a.confirmed_sha256;
  provider_draft_id = none;
  provider_message_id = none;
  attempts = 0;
  reconcile_attempts = 0;
  dispatched_at = none;
  delivered_at = none;
  last_error_class = none;
  last_error_detail = none;
  is_seed = false;
  created_at = now;
  updated_at = now;
}

abbrev pub has_key : ℕ → String → Send → Bool
has_key user_id key s = s.user_id == user_id && str_eq s.idempotency_key key

unfoldable pub load_send_by_key : List Send → ℕ → String → Option Send
load_send_by_key sends user_id key = first_where (has_key user_id key) sends

-- INSERT … ON CONFLICT ON CONSTRAINT sends_user_key_uniq DO NOTHING RETURNING *
unfoldable pub insert_send : ℕ → ℕ → ClaimArgs → List Send → Option Send × List Send
insert_send now id a sends =
    if is_some (load_send_by_key sends a.user_id a.idempotency_key)
    then (none, sends)
    else (some (new_send now id a), sends ++ new_send now id a ∷ [])

pub data ClaimResult : Type 0 where
  claimed : Send → Bool → ClaimResult
  contention : ClaimResult

abbrev pub claim_retries : ℕ
claim_retries = 3

-- what other transactions do to the table: before the first try, before the read of a try, and before
-- the next try
pub record Interleaving : Type 0 where
  pub before : List Send → List Send
  pub between : ℕ → List Send → List Send
  pub next : ℕ → List Send → List Send

unfoldable pub claim_tries :
    ℕ → Interleaving → ℕ → ℕ → ClaimArgs → List Send → ClaimResult × List Send
claim_tries zero others now id a sends = (contention, sends)
claim_tries (suc tries) others now id a sends =
    let (inserted, after) = insert_send now id a sends in
    let seen = others.between tries after in
    let again = claim_tries tries others now id a (others.next tries seen) in
    elim inserted [
      | some row ↦ (claimed row true, after)
      | none ↦ elim (load_send_by_key seen a.user_id a.idempotency_key) [
        | some row ↦ (claimed row false, seen)
        | none ↦ again
      ]
    ]

unfoldable pub claim_send : Interleaving → ℕ → ℕ → ClaimArgs → List Send → ClaimResult × List Send
unfolding claim_tries
claim_send = claim_tries claim_retries
