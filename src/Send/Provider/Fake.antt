-- ===== src/Send/Provider/Fake.antt =====
-- `FakeSendProvider` of packages/core/send/providers.py without its HTTP endpoint, delay and ledger
-- file: deliveries kept in memory, one-shot failures, and a probe that counts them. `minted` stands
-- for `uuid4().hex[:16]`. The process holds one instance for each kind.
pub mod Honest
use unified_search_safe_send.Prelude.{
  ℕ, suc, Bool, true, false, ◌&&◌, not, Option, none, some, List, [], ◌∷◌, ◌++◌, String, str_eq,
  length, where_, if◌then◌else◌, is_some,
}
use unified_search_safe_send.Prelude.Text.{◌<>◌, show}
use unified_search_safe_send.Enums.{ProviderKind, gmail, slack}
use unified_search_safe_send.Errors.{Exn}
use unified_search_safe_send.Send.Row.{SendReceipt}
use unified_search_safe_send.Send.Provider.{
  ProbeVerdict, found, absent, inconclusive, ProbeResult, SendRequest, PreparedSend, Reply, returns,
  raises, SendProvider,
}

pub record Delivery : Type 0 where
  pub fingerprint : String
  pub recipient : String
  pub body : String
  pub provider_message_id : String

pub record Fake : Type 0 where
  pub deliveries : List Delivery
  pub next_failure : Option Exn
  pub accept_then_fail : Bool
  pub probe_verdict : Option ProbeVerdict
  pub minted : ℕ

unfoldable pub deliveries_for : Fake → String → List Delivery
deliveries_for f fingerprint = where_ (λ d. str_eq d.fingerprint fingerprint) f.deliveries

abbrev pub disarmed : Fake → Fake
disarmed f = record f { next_failure = none; accept_then_fail = false }

unfoldable pub record_delivery : Fake → SendRequest → String → Fake
record_delivery f request message_id = record f {
  deliveries =
      f.deliveries
      ++ record {
        fingerprint = request.fingerprint;
        recipient = request.recipient;
        body = request.body;
        provider_message_id = message_id;
      }
        ∷ [];
  minted = suc f.minted;
}

abbrev pub message_id : Fake → String
message_id f = "fake-" <> show f.minted

-- the request was taken; an armed failure loses the response
unfoldable pub accept : Fake → SendRequest → Option Exn → Reply SendReceipt × Fake
accept f request none = (
  returns (record {
    provider_message_id = message_id f;
    provider_draft_id = request.provider_draft_id;
  }),
  record_delivery f request (message_id f),
)
accept f request (some failure) = (raises failure, record_delivery f request (message_id f))

unfoldable pub dispatch_fake : Fake → SendRequest → Reply SendReceipt × Fake
dispatch_fake f request = elim f.next_failure [
  | none ↦ accept (disarmed f) request none
  | some failure ↦
      if f.accept_then_fail
      then accept (disarmed f) request (some failure)
      else (raises failure, disarmed f)
]

abbrev pub is_inconclusive : Option ProbeVerdict → Bool
is_inconclusive none = false
is_inconclusive (some found) = false
is_inconclusive (some absent) = false
is_inconclusive (some inconclusive) = true

unfoldable pub probe_matches : SendRequest → List Delivery → ProbeResult
probe_matches request [] = record {
  verdict = absent;
  provider_message_id = none;
  evidence = "no message at the provider carries fingerprint " <> request.fingerprint;
}
probe_matches request (d ∷ ds) = record {
  verdict = found;
  provider_message_id = some d.provider_message_id;
  evidence =
      show (suc (length ds))
      <> " message(s) at the provider carry fingerprint "
      <> request.fingerprint;
}

unfoldable pub probe_fake : Fake → SendRequest → ProbeResult
probe_fake f request =
    if is_inconclusive f.probe_verdict
    then record {
      verdict = inconclusive;
      provider_message_id = none;
      evidence = "probe forced inconclusive";
    }
    else probe_matches request (deliveries_for f request.fingerprint)

pub record Fakes : Type 0 where
  pub gmail_fake : Fake
  pub slack_fake : Fake

abbrev pub fake_of : ProviderKind → Fakes → Fake
fake_of gmail p = p.gmail_fake
fake_of slack p = p.slack_fake

abbrev pub with_fake : ProviderKind → Fakes → Fake → Fakes
with_fake gmail p f = record p { gmail_fake = f }
with_fake slack p f = record p { slack_fake = f }

abbrev pub fake_provider : SendProvider Fakes
fake_provider = record {
  prepare = λ k p r. (returns (record { provider_draft_id = none }), p);
  dispatch = λ k p r. let (reply, f) = dispatch_fake (fake_of k p) r in (reply, with_fake k p f);
  probe_by_fingerprint = λ k p r. (returns (probe_fake (fake_of k p) r), p);
  discard = λ k p r. (returns tt, p);
}

-- `delivery_count`, for one fingerprint
unfoldable pub delivery_count : Fakes → ProviderKind → String → ℕ
delivery_count p k fingerprint = length (deliveries_for (fake_of k p) fingerprint)
