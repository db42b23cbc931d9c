-- ===== src/Send/Row/Load.antt =====
-- Reading a row after an UPDATE by id.
use unified_search_safe_send.Prelude.{
  ℕ, ◌≡◌, refl, Bool, Option, none, some, List, [], ◌∷◌, arith, ◌==◌, if◌then◌else◌, In, Bool-cases,
  inl, inr,
}
use unified_search_safe_send.Send.Row.{Send, load_send, update_send, at_send}

-- the row that an UPDATE leaves where a SELECT found `r`
abbrev pub after_update : ℕ → (Send → Bool) → (Send → Send) → Option Send → Option Send
after_update id test f none = none
after_update id test f (some s) = some (if at_send id test s then f s else s)

-- An UPDATE that keeps ids changes what a SELECT by id finds exactly as it changes the found row.
pub load-update :
    (id j : ℕ) (test : Send → Bool) (f : Send → Send) (sends : List Send)
    → ((s : Send) → (f s).id ≡ s.id)
    → load_send (update_send id test f sends) j ≡ after_update id test f (load_send sends j)
unfolding load_send update_send
load-update id j test f [] h = refl
load-update id j test f (s ∷ sends) h = ground (arith, h s, load-update id j test f sends h)

pub load-id : (sends : List Send) (id : ℕ) (s : Send) → load_send sends id ≡ some s → s.id ≡ id
unfolding load_send
load-id [] id s h = cc
load-id (x ∷ sends) id s h = ground (arith, load-id sends id s)

pub load-In : (sends : List Send) (id : ℕ) (s : Send) → load_send sends id ≡ some s → In s sends
unfolding load_send
load-In [] id s h = cc
load-In (x ∷ sends) id s h = elim (Bool-cases (x.id == id)) [
  | inl e ↦ inl (ground arith)
  | inr e ↦ inr (load-In sends id s (ground arith))
]
