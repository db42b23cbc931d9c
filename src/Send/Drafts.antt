-- ===== src/Send/Drafts.antt =====
-- The drafts of packages/core/send/service.py: `create_draft` and `update_draft`, with the view that
-- the confirm screen shows. No statement of them names a provider's send.
pub mod Confirm
pub mod Edits
use unified_search_safe_send.Prelude.{
  ℕ, Bool, true, false, not, ◌&&◌, Option, none, some, List, [], ◌∷◌, ◌++◌, String, ◌==◌, leb,
  str_eq, if◌then◌else◌, coalesce, or_default, first_where, update_where, is_some,
}
use unified_search_safe_send.Prelude.Text.{◌<>◌, show, strip}
use unified_search_safe_send.Enums.{ProviderKind, gmail, slack}
use unified_search_safe_send.Connections.Row.{Connection, lowest_id, own_account, own_active}
use unified_search_safe_send.Send.Row.{Draft}
use unified_search_safe_send.Send.Digest.{channel_value}
use unified_search_safe_send.Send.Recipients.{resolve_recipient, warning_for}
use unified_search_safe_send.Send.Service.{
  Gate, ok, refused, conflict, GateError, refusal, Db, get_draft, draft_digest,
}

-- `_draft_view`: the draft's row and what the confirm screen adds to it
pub record DraftView : Type 0 where
  pub draft : Draft
  pub connection_display : String
  pub connection_id : ℕ
  pub confirm_sha256 : String
  pub warning : String

unfoldable pub draft_view : (String → String) → Draft → Connection → DraftView
draft_view sha256 d c = record {
  draft = d;
  connection_display = c.display_name;
  connection_id = c.id;
  confirm_sha256 = draft_digest sha256 d;
  warning = warning_for d.channel d.recipient_display c.display_name;
}

unfoldable pub connection_by_id : List Connection → ℕ → Option Connection
connection_by_id connections id = first_where (λ c. c.id == id) connections

-- connections/service.py
abbrev pub reconnect_url : ℕ → String → String
reconnect_url connection_id provider =
    "/v1/connections/" <> provider <> "/authorize?reconnect=" <> show connection_id

unfoldable pub no_connection : List Connection → ℕ → ProviderKind → GateError
no_connection connections user_id channel = record {
  code = "connection_needs_reconnect";
  status = 409;
  classification = "needs_reconnect";
  action_url = some (elim (lowest_id (own_account user_id channel) connections) [
    | some broken ↦ reconnect_url broken.id (channel_value channel)
    | none ↦ "/v1/connections/" <> channel_value channel <> "/authorize"
  ]);
}

unfoldable pub resolve_connection : List Connection → ℕ → ProviderKind → Option ℕ → Gate Connection
resolve_connection connections user_id channel (some id) = elim (connection_by_id connections id) [
  | none ↦ refused (refusal "not_found" 404)
  | some c ↦ if c.user_id == user_id then ok c else refused (refusal "not_found" 404)
]
resolve_connection connections user_id channel none =
    elim (lowest_id (own_active user_id channel) connections) [
      | none ↦ refused (no_connection connections user_id channel)
      | some c ↦ ok c
    ]

pub record DraftArgs : Type 0 where
  pub user_id : ℕ
  pub channel : ProviderKind
  pub recipient : String
  pub body : String
  pub subject : Option String
  pub connection_id : Option ℕ
  pub in_reply_to_result_id : Option ℕ

abbrev pub is_gmail : ProviderKind → Bool
is_gmail gmail = true
is_gmail slack = false

unfoldable pub new_draft : ℕ → ℕ → String → String → DraftArgs → Connection → Draft
new_draft now id key display a c = record {
  id = id;
  user_id = a.user_id;
  connection_id = c.id;
  channel = a.channel;
  recipient = a.recipient;
  recipient_display = display;
  subject = a.subject;
  body = a.body;
  idempotency_key = key;
  in_reply_to_result_id = a.in_reply_to_result_id;
  in_reply_to_external = none;
  created_at = now;
  updated_at = now;
}

module _ (sha256 : String → String) (channel_name : ℕ → String → Option String) (now : ℕ) where
  -- `id` and `key` are the uuids of the row and of `new_idempotency_key`
  unfoldable pub insert_draft : ℕ → String → Db → DraftArgs → Connection → DraftView × Db
  insert_draft id key db a c =
      let display = resolve_recipient channel_name a.channel a.recipient (some c.id) in
      let row = new_draft now id key display a c in
      (draft_view sha256 row c, record db { drafts = db.drafts ++ row ∷ [] })

  unfoldable pub create_draft : ℕ → String → Db → DraftArgs → Gate (DraftView × Db)
  create_draft id key db a =
      if str_eq (strip a.body) ""
      then refused (refusal "recipient_invalid" 422)
      else if str_eq (strip a.recipient) ""
      then refused (refusal "recipient_invalid" 422)
      else if is_some a.subject && not (is_gmail a.channel)
      then refused (refusal "recipient_invalid" 422)
      else elim (resolve_connection db.connections a.user_id a.channel a.connection_id) [
        | ok c ↦ ok (insert_draft id key db a c)
        | refused e ↦ refused e
        | conflict ↦ conflict
      ]

  unfoldable pub next_display : Draft → Connection → String → String
  next_display d c next_recipient =
      if str_eq next_recipient d.recipient
      then d.recipient_display
      else resolve_recipient channel_name d.channel next_recipient (some c.id)

  abbrev pub set_edited : String → String → Option String → Option String → Draft → Draft
  set_edited recipient display subject body d = record d {
    recipient = recipient;
    recipient_display = display;
    subject = coalesce subject d.subject;
    body = or_default body d.body;
    updated_at = now;
  }

  abbrev pub own_draft : ℕ → ℕ → Draft → Bool
  own_draft id user_id d = d.id == id && d.user_id == user_id

  -- the edit of one row
  unfoldable pub edited : Option String → Option String → Option String → Draft → Connection → Draft
  edited recipient subject body d c =
      let next_recipient = or_default recipient d.recipient in
      set_edited next_recipient (next_display d c next_recipient) subject body d

  -- a row that fails the CHECK drafts_subject_only_email is an IntegrityError
  unfoldable pub update_draft :
      Db → ℕ → ℕ → Option String → Option String → Option String → Gate (DraftView × Db)
  unfolding edited
  update_draft db id user_id recipient subject body = elim (get_draft db id user_id) [
    | none ↦ refused (refusal "not_found" 404)
    | some (d, c) ↦
        let next_recipient = or_default recipient d.recipient in
        let display = next_display d c next_recipient in
        let next = edited recipient subject body d c in
        let drafts =
          update_where (own_draft id user_id) (set_edited next_recipient display subject body)
            db.drafts in
        if is_some next.subject && not (is_gmail next.channel)
        then conflict
        else ok (draft_view sha256 next c, record db { drafts = drafts })
  ]
