-- ===== src/Send/Provider/Fake/Honest.antt =====
-- The fake provider keeps the promises that the send job relies on.
use unified_search_safe_send.Prelude.{
  ℕ, suc, ◌≤◌, ◌≡◌, ◌≢◌, ◌⊎◌, refl, Bool, Option, none, some, List, [], ◌∷◌, ◌++◌, String, arith,
  str_eq, eq_iff, length, where_, inl, inr, if◌then◌else◌,
}
use unified_search_safe_send.Enums.{ProviderKind, gmail, slack}
use unified_search_safe_send.Errors.{Exn}
use unified_search_safe_send.Send.Provider.{absent, SendRequest, IsHonest}
use unified_search_safe_send.Send.Provider.Fake.{
  Fake, Fakes, Delivery, deliveries_for, disarmed, record_delivery, accept, dispatch_fake,
  probe_matches, probe_fake, fake_of, with_fake, fake_provider, delivery_count, message_id,
}

length-where-snoc :
    (p : Delivery → Bool) (ds : List Delivery) (d : Delivery)
    → length (where_ p (ds ++ d ∷ []))
      ≡ (if p d then suc (length (where_ p ds)) else length (where_ p ds))
length-where-snoc p [] d = ground arith
length-where-snoc p (x ∷ ds) d = ground (arith, length-where-snoc p ds d)

abbrev count : Fake → String → ℕ
count f fp = length (deliveries_for f fp)

count-record_delivery :
    (f : Fake) (r : SendRequest) (m fp : String)
    → count (record_delivery f r m) fp
      ≡ (if str_eq r.fingerprint fp then suc (count f fp) else count f fp)
unfolding deliveries_for record_delivery
count-record_delivery f r m fp = length-where-snoc _ f.deliveries _

count-disarmed : (f : Fake) (fp : String) → count (disarmed f) fp ≡ count f fp
unfolding deliveries_for
count-disarmed f fp = refl

count-accept :
    (f : Fake) (r : SendRequest) (o : Option Exn) (fp : String)
    → count (accept f r o).1 fp ≡ (if str_eq r.fingerprint fp then suc (count f fp) else count f fp)
unfolding accept
count-accept f r none fp = count-record_delivery f r (message_id f) fp
count-accept f r (some e) fp = count-record_delivery f r (message_id f) fp

count-dispatch_fake :
    (f : Fake) (r : SendRequest) (fp : String)
    → (count (dispatch_fake f r).1 fp ≡ count f fp)
      ⊎ ((r.fingerprint ≡ fp) × (count (dispatch_fake f r).1 fp ≡ suc (count f fp)))
unfolding dispatch_fake
count-dispatch_fake f r fp = ground (
  arith,
  eq_iff r.fingerprint fp,
  count-disarmed f fp,
  count-accept (disarmed f) r none fp,
  count-accept (disarmed f) r f.next_failure fp,
)

dispatch_fake_once :
    (f : Fake) (r : SendRequest)
    → count (dispatch_fake f r).1 r.fingerprint ≤ suc (count f r.fingerprint)
dispatch_fake_once f r = elim (count-dispatch_fake f r r.fingerprint) [
  | inl e ↦ omega (arith, e)
  | inr e ↦ omega (arith, e.1)
]

dispatch_fake_other :
    (f : Fake) (r : SendRequest) (fp : String)
    → r.fingerprint ≢ fp
    → count (dispatch_fake f r).1 fp ≡ count f fp
dispatch_fake_other f r fp ne = elim (count-dispatch_fake f r fp) [
  | inl e ↦ e
  | inr e ↦ absurd (ne e.0)
]

probe_fake_absent :
    (f : Fake) (r : SendRequest) → (probe_fake f r).verdict ≡ absent → count f r.fingerprint ≡ 0
unfolding probe_fake probe_matches
probe_fake_absent f r h = ground arith

other_kind :
    (k j : ProviderKind) (p : Fakes) (r : SendRequest) (fp : String)
    → (k ≢ j) ⊎ (r.fingerprint ≢ fp)
    → count (fake_of j (with_fake k p (dispatch_fake (fake_of k p) r).1)) fp
      ≡ count (fake_of j p) fp
other_kind gmail gmail p r fp (inl h) = absurd (h refl)
other_kind gmail gmail p r fp (inr h) = dispatch_fake_other p.gmail_fake r fp h
other_kind gmail slack p r fp h = refl
other_kind slack gmail p r fp h = refl
other_kind slack slack p r fp (inl h) = absurd (h refl)
other_kind slack slack p r fp (inr h) = dispatch_fake_other p.slack_fake r fp h

same_kind :
    (k : ProviderKind) (p : Fakes) (f : Fake) (fp : String)
    → count (fake_of k (with_fake k p f)) fp ≡ count f fp
same_kind gmail p f fp = refl
same_kind slack p f fp = refl

-- The fake takes a message only on a dispatch, one at most, and its probe says `absent` only where
-- no delivery carries the fingerprint, whatever failures and verdicts are armed.
pub fake_provider-IsHonest : IsHonest fake_provider delivery_count
unfolding delivery_count
fake_provider-IsHonest = record {
  prepare_keeps = λ k j p r fp. refl;
  discard_keeps = λ k j p r fp. refl;
  probe_keeps = λ k j p r fp. refl;
  dispatch_once = λ k p r. omega (
    arith,
    dispatch_fake_once (fake_of k p) r,
    same_kind k p (dispatch_fake (fake_of k p) r).1 r.fingerprint,
  );
  dispatch_other = other_kind;
  probe_absent = λ k p r res e v. probe_fake_absent (fake_of k p) r (ground arith);
}
