-- ===== src/Tests/DraftTests.antt =====
-- Drafts and their digests at concrete contents.
use unified_search_safe_send.Prelude.{
  ℕ, ◌≡◌, ◌≢◌, inl, inr, refl, ap, true, Option, none, some, [], ◌∷◌, String, In, str_eq, arith,
}
use unified_search_safe_send.Prelude.Text.{show, strip}
use unified_search_safe_send.Enums.{slack}
use unified_search_safe_send.Connections.Row.{lowest_id}
use unified_search_safe_send.Send.Row.{Draft}
use unified_search_safe_send.Send.Digest.{confirmation_digest}
use unified_search_safe_send.Send.Digest.Injective.{confirmation_digest_inj}
use unified_search_safe_send.Send.Claim.{load_send_by_key}
use unified_search_safe_send.Send.Service.{
  ok, refused, refusal, get_draft, draft_digest, given, send_draft,
}
use unified_search_safe_send.Send.Service.First.{IsSent}
use unified_search_safe_send.Send.Recipients.{resolve_recipient}
use unified_search_safe_send.Send.Drafts.{
  DraftView, DraftArgs, draft_view, edited, new_draft, create_draft, insert_draft,
  resolve_connection, update_draft, next_display,
}
use unified_search_safe_send.Send.Drafts.Confirm.{create_then_send}
use unified_search_safe_send.Send.Drafts.Edits.{edit_makes_stale}
use unified_search_safe_send.Send.Service.{Db}
use unified_search_safe_send.Tests.SendTests.{slack_draft, slack_connection}
use unified_search_safe_send.Tests.GateTests.{plain, alone, fresh_db}

confirmation_digest_inj_example :
    (slack ≡ slack)
    × (◌≡◌ {A = String} "C1" "C1")
    × (◌≡◌ {A = String} "general" "general")
    × (◌≡◌ {A = String} "" "")
    × (◌≡◌ {A = String} "hello" "hello")
unfolding confirmation_digest
confirmation_digest_inj_example =
    confirmation_digest_inj plain slack slack "C1" "C1" "general" "general" none (some "") "hello"
      "hello" (λ e. e) refl

abbrev no_names : ℕ → String → Option String
no_names id recipient = none

abbrev args : DraftArgs
args = record {
  user_id = 1;
  channel = slack;
  recipient = "C1";
  body = "hello";
  subject = none;
  connection_id = none;
  in_reply_to_result_id = none;
}

abbrev new_row : Draft
new_row = new_draft 40 10 "k-10" "#C1" args slack_connection

abbrev created_view : DraftView
created_view = draft_view plain new_row slack_connection

abbrev drafted_db : Db
drafted_db = record fresh_db { drafts = slack_draft ∷ new_row ∷ [] }

is_created : create_draft plain no_names 40 10 "k-10" fresh_db args ≡ ok (created_view, drafted_db)
unfolding create_draft resolve_connection lowest_id insert_draft strip new_draft draft_view
    resolve_recipient
is_created = refl

other_id : (d : Draft) → In d fresh_db.drafts → d.id ≢ 10
other_id d (inl e) h = omega (arith, h, ap (λ (x : Draft). x.id) e)
other_id d (inr z) h = absurd z

unsent : load_send_by_key fresh_db.sends 1 "k-10" ≡ none
unfolding load_send_by_key
unsent = refl

shown : given (some created_view.confirm_sha256) ≡ true
unfolding draft_view draft_digest confirmation_digest new_draft show
shown = refl

create_then_send_example : IsSent plain alone 100 5 drafted_db 10 1 created_view.confirm_sha256
create_then_send_example =
    create_then_send plain no_names 40 alone 100 10 5 "k-10" fresh_db args created_view drafted_db
      other_id unsent unsent shown is_created

abbrev edited_row : Draft
edited_row = edited plain no_names 50 none none (some "bye") slack_draft slack_connection

abbrev edited_view : DraftView
edited_view = draft_view plain edited_row slack_connection

abbrev edited_db : Db
edited_db = record fresh_db { drafts = edited_row ∷ [] }

is_edited :
    update_draft plain no_names 50 fresh_db 9 1 none none (some "bye") ≡ ok (edited_view, edited_db)
unfolding update_draft get_draft edited next_display draft_view
is_edited = refl

found_draft : get_draft fresh_db 9 1 ≡ some (slack_draft, slack_connection)
unfolding get_draft
found_draft = refl

unsent_draft : load_send_by_key fresh_db.sends 1 "k-5" ≡ none
unfolding load_send_by_key
unsent_draft = refl

old_digest : given (some (draft_digest plain slack_draft)) ≡ true
unfolding draft_digest confirmation_digest show
old_digest = refl

other_body : edited_row.body ≢ slack_draft.body
unfolding edited
other_body e = cc (ap (λ (u : String). str_eq u "bye") e)

edit_makes_stale_example :
    send_draft plain alone 100 5 edited_db 9 1 (some (draft_digest plain slack_draft))
    ≡ refused (refusal "body_changed_since_confirmation" 422)
edit_makes_stale_example =
    edit_makes_stale plain no_names 50 alone 100 5 fresh_db 9 1 none none (some "bye") edited_view
      edited_db slack_draft slack_connection found_draft is_edited unsent_draft old_digest (λ e. e)
      (inr (inr other_body))
