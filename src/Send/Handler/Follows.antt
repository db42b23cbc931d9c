-- ===== src/Send/Handler/Follows.antt =====
-- What the send job's steps other than the provider call leave alone: the number of messages at the
-- provider, each row's key and provider, and the evidence that a dispatch was attempted.
use unified_search_safe_send.Prelude.{ℕ, ◌≡◌, refl, sym, ◌∙◌, Bool, Option, none, some, List, arith}
use unified_search_safe_send.Send.Row.{Send, load_send, update_send}
use unified_search_safe_send.Send.Row.Load.{load-update, after_update}

-- A change of a row that forgets neither its identity nor its dispatch.
pub record IsQuiet (f : Send → Send) : Type 0 where
  pub same_id : (s : Send) → (f s).id ≡ s.id
  pub same_key : (s : Send) → (f s).idempotency_key ≡ s.idempotency_key
  pub same_provider : (s : Send) → (f s).provider ≡ s.provider
  pub kept : (s : Send) → (f s).dispatched_at ≡ none → s.dispatched_at ≡ none

-- The rows `after` are the rows `before`, changed quietly.
pub record RowsFollow (before after : List Send) : Type 0 where
  pub row :
      (j : ℕ) (s' : Send)
      → load_send after j ≡ some s'
      → (s : Send) × (load_send before j ≡ some s)
        × (s'.idempotency_key ≡ s.idempotency_key)
        × (s'.provider ≡ s.provider)
        × (s'.dispatched_at ≡ none → s.dispatched_at ≡ none)

pub RowsFollow-refl : (sends : List Send) → RowsFollow sends sends
RowsFollow-refl sends = record { row = λ j s e. (s, e, refl, refl, λ h. h) }

pub RowsFollow-trans : (a b c : List Send) → RowsFollow a b → RowsFollow b c → RowsFollow a c
RowsFollow-trans a b c f g = record {
  row = λ j s e.
      let (t, et, k, p, d) = g.row j s e in
      let (u, eu, k', p', d') = f.row j t et in (u, eu, k ∙ k', p ∙ p', λ h. d' (d h));
}

pub update-RowsFollow :
    (id : ℕ) (test : Send → Bool) (f : Send → Send) (sends : List Send)
    → IsQuiet f
    → RowsFollow sends (update_send id test f sends)
update-RowsFollow id test f sends q = record {
  row =
      λ j s e. from j (load_send sends j) refl (sym (load-update id j test f sends q.same_id) ∙ e);
}
  where
    from :
        (j : ℕ) {s' : Send} (o : Option Send)
        → load_send sends j ≡ o
        → after_update id test f o ≡ some s'
        → (s : Send) × (load_send sends j ≡ some s)
          × (s'.idempotency_key ≡ s.idempotency_key)
          × (s'.provider ≡ s.provider)
          × (s'.dispatched_at ≡ none → s.dispatched_at ≡ none)
    from j none l e = cc
    from j (some s) l e = (
      s,
      l,
      ground (arith, q.same_key s),
      ground (arith, q.same_provider s),
      λ h. ground (arith, q.kept s),
    )
