-- ===== src/Send/Digest.antt =====
-- packages/core/send/digest.py. `sha256` is hashlib's, an argument; the text that it reads stands for
-- its UTF-8, and `len` counts those bytes. Each part is prefixed by its length.
pub mod Injective
use Prim.Native.String.{len}
use unified_search_safe_send.Prelude.{Option, List, [], ◌∷◌, String, or_default}
use unified_search_safe_send.Prelude.Text.{◌<>◌, show}
use unified_search_safe_send.Enums.{ProviderKind, gmail, slack}

abbrev pub channel_value : ProviderKind → String
channel_value gmail = "gmail"
channel_value slack = "slack"

unfoldable pub payload : List String → String
payload [] = ""
payload (part ∷ parts) = show (len part) <> ":" <> part <> payload parts

-- channel, recipient, its display, `subject or ""`, body
abbrev pub digest_parts : ProviderKind → String → String → Option String → String → List String
digest_parts channel recipient recipient_display subject body =
    channel_value channel ∷ recipient ∷ recipient_display ∷ or_default subject "" ∷ body ∷ []

unfoldable pub confirmation_digest :
    (String → String) → ProviderKind → String → String → Option String → String → String
unfolding payload
confirmation_digest sha256 channel recipient recipient_display subject body =
    sha256 (payload (digest_parts channel recipient recipient_display subject body))
