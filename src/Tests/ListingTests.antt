-- ===== src/Tests/ListingTests.antt =====
-- A history of three sends, two of them of one moment.
use unified_search_safe_send.Prelude.{
  ◌≡◌, refl, ap, inl, inr, true, false, none, [], ◌∷◌, List, arith, where_, Distinct,
}
use unified_search_safe_send.Send.Row.{Send}
use unified_search_safe_send.Api.Paging.{newest_first, follow}
use unified_search_safe_send.Api.Listing.{visible_send, list_sends}
use unified_search_safe_send.Api.Listing.Whole.{follow-list_sends}
use unified_search_safe_send.Tests.SendTests.{open_send}

abbrev seeded : Send
seeded = record open_send { id = 8; created_at = 40; is_seed = true }

abbrev early : Send
early = record open_send { id = 2; created_at = 50 }

abbrev twin : Send
twin = record open_send { id = 3; created_at = 50 }

abbrev history : List Send
history = early ∷ seeded ∷ twin ∷ []

history-Distinct : Distinct (λ (s : Send). s.id) history
history-Distinct = (
  λ y m. elim m [
    | inl e ↦ rw (ap (λ (s : Send). s.id) e) (λ q. absurd (omega (arith, q)))
    | inr n ↦ elim n [
      | inl e ↦ rw (ap (λ (s : Send). s.id) e) (λ q. absurd (omega (arith, q)))
      | inr k ↦ absurd k
    ]
  ],
  (
    λ y m. elim m [
      | inl e ↦ rw (ap (λ (s : Send). s.id) e) (λ q. absurd (omega (arith, q)))
      | inr k ↦ absurd k
    ],
    (λ y m. absurd m, tt),
  ),
)

follow-list_sends_example :
    follow 3 (λ c. list_sends history 1 1 c false) none
    ≡ newest_first (λ s. s.created_at) (λ s. s.id) (where_ (visible_send 1 false) history)
follow-list_sends_example = follow-list_sends history 1 0 3 false history-Distinct (omega arith)

history-newest_first :
    newest_first (λ s. s.created_at) (λ s. s.id) (where_ (visible_send 1 false) history)
    ≡ twin ∷ early ∷ []
history-newest_first = refl
