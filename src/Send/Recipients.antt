-- ===== src/Send/Recipients.antt =====
-- packages/core/send/recipients.py. `channel_name` is SlackClient.channel_name on a connection, and
-- `none` also where that call fails.
use text.Mathlib.Text.{starts_with}
use unified_search_safe_send.Prelude.{ℕ, Option, none, some, String, str_eq, if◌then◌else◌}
use unified_search_safe_send.Prelude.Text.{◌<>◌, truthy}
use unified_search_safe_send.Enums.{ProviderKind, gmail, slack}

-- FAKE_CHANNEL_NAMES.get
unfoldable pub fake_channel_name : String → Option String
fake_channel_name id =
    if str_eq id "C024BE91L"
    then some "#acme-renewal"
    else if str_eq id "C7X2QF3AA"
    then some "#sales"
    else if str_eq id "C5N1MK8QQ"
    then some "#eng"
    else none

unfoldable pub known_or_id : String → String
unfolding fake_channel_name
known_or_id recipient = elim (fake_channel_name recipient) [
  | some known ↦ known
  | none ↦ "#" <> recipient
]

unfoldable pub lookup : (ℕ → String → Option String) → String → Option ℕ → Option String
lookup channel_name recipient none = none
lookup channel_name recipient (some connection_id) = channel_name connection_id recipient

unfoldable pub resolve_channel : (ℕ → String → Option String) → String → Option ℕ → String
unfolding known_or_id lookup
resolve_channel channel_name recipient connection_id =
    if starts_with recipient "#"
    then recipient
    else elim (lookup channel_name recipient connection_id) [
      | some resolved ↦ if truthy resolved then resolved else known_or_id recipient
      | none ↦ known_or_id recipient
    ]

unfoldable pub resolve_recipient :
    (ℕ → String → Option String) → ProviderKind → String → Option ℕ → String
unfolding resolve_channel
resolve_recipient channel_name gmail recipient connection_id = recipient
resolve_recipient channel_name slack recipient connection_id =
    resolve_channel channel_name recipient connection_id

unfoldable pub warning_for : ProviderKind → String → String → String
warning_for gmail recipient_display connection_display =
    "This will email " <> recipient_display <> " from " <> connection_display <> "."
warning_for slack recipient_display connection_display =
    "This will post to " <> recipient_display <> " in " <> connection_display <> "."
