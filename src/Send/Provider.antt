-- ===== src/Send/Provider.antt =====
-- The dispatch interface of packages/core/send/providers.py: what a provider is asked and answers,
-- as a record of operations on the provider's own state `P`, and what the send job relies on.
pub mod Fake
use unified_search_safe_send.Prelude.{ℕ, suc, ◌≤◌, ◌≡◌, ◌≢◌, ◌⊎◌, Option, String}
use unified_search_safe_send.Enums.{ProviderKind}
use unified_search_safe_send.Errors.{Exn}
use unified_search_safe_send.Send.Row.{SendReceipt}

pub data ProbeVerdict : Type 0 where
  found absent inconclusive : ProbeVerdict

pub record ProbeResult : Type 0 where
  pub verdict : ProbeVerdict
  pub provider_message_id : Option String
  pub evidence : String

pub record SendRequest : Type 0 where
  pub fingerprint : String
  pub channel : ProviderKind
  pub recipient : String
  pub recipient_display : String
  pub subject : Option String
  pub body : String
  pub provider_draft_id : Option String
  pub connection_id : Option ℕ
  pub dispatched_at : Option ℕ

pub record PreparedSend : Type 0 where
  pub provider_draft_id : Option String

-- an awaited call returns or raises
pub data Reply (A : Type 0) : Type 0 where
  returns : A → Reply A
  raises : Exn → Reply A

-- The instance is chosen by the provider's kind, as `get_provider` does.
pub record SendProvider (P : Type 0) : Type 0 where
  pub prepare : ProviderKind → P → SendRequest → Reply PreparedSend × P
  pub dispatch : ProviderKind → P → SendRequest → Reply SendReceipt × P
  pub probe_by_fingerprint : ProviderKind → P → SendRequest → Reply ProbeResult × P
  pub discard : ProviderKind → P → SendRequest → Reply (Unit {0}) × P

unfoldable pub fingerprint_for : String → String
fingerprint_for idempotency_key = idempotency_key

-- `delivered p kind fingerprint` is how many messages with the fingerprint the provider has taken.
-- Only a dispatch takes one, at most one, and `absent` is said only where there is none.
pub record IsHonest {P : Type 0} (ops : SendProvider P) (delivered : P → ProviderKind → String → ℕ)
    : Type 0 where
  pub prepare_keeps :
      (k j : ProviderKind) (p : P) (r : SendRequest) (fp : String)
      → delivered (ops.prepare k p r).1 j fp ≡ delivered p j fp
  pub discard_keeps :
      (k j : ProviderKind) (p : P) (r : SendRequest) (fp : String)
      → delivered (ops.discard k p r).1 j fp ≡ delivered p j fp
  pub probe_keeps :
      (k j : ProviderKind) (p : P) (r : SendRequest) (fp : String)
      → delivered (ops.probe_by_fingerprint k p r).1 j fp ≡ delivered p j fp
  pub dispatch_once :
      (k : ProviderKind) (p : P) (r : SendRequest)
      → delivered (ops.dispatch k p r).1 k r.fingerprint ≤ suc (delivered p k r.fingerprint)
  pub dispatch_other :
      (k j : ProviderKind) (p : P) (r : SendRequest) (fp : String)
      → (k ≢ j) ⊎ (r.fingerprint ≢ fp)
      → delivered (ops.dispatch k p r).1 j fp ≡ delivered p j fp
  pub probe_absent :
      (k : ProviderKind) (p : P) (r : SendRequest) (res : ProbeResult)
      → (ops.probe_by_fingerprint k p r).0 ≡ returns res
      → res.verdict ≡ absent
      → delivered p k r.fingerprint ≡ 0
