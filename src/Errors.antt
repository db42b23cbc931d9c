-- ===== src/Errors.antt =====
-- packages/core/errors.py: the exceptions that reach the job boundary and `classify`, the one
-- function that maps a failure onto the four error classes. An exception that carries no data for
-- the classifier is its text. A provider's payload is not modelled: `classify` does not read it.
pub mod Known
use unified_search_safe_send.Prelude.{
  ℕ, Bool, true, false, ◌&&◌, ◌||◌, Option, none, some, List, [], ◌∷◌, String, ◌==◌, leb, str_eq,
  exists_where, if◌then◌else◌,
}
use unified_search_safe_send.Prelude.Text.{◌<>◌, strip}
use unified_search_safe_send.Enums.{ErrorClass, transient, permanent, config}

pub record ProviderError : Type 0 where
  pub provider : String
  pub code : String
  pub detail : String
  pub status : Option ℕ
  pub retry_after : Option ℕ

-- `transport` is httpx's TimeoutException, NetworkError and RemoteProtocolError; `os_error` is
-- TimeoutError, ConnectionError and OSError; `bug` is any other exception.
pub data Exn : Type 0 where
  provider_error : ProviderError → Exn
  needs_reconnect : ℕ → String → Exn
  token_unavailable transport os_error bug : String → Exn
  http_status : ℕ → String → Exn

-- `code in TABLE`
abbrev pub member : String → List String → Bool
member code table = exists_where (str_eq code) table

abbrev pub google_needs_reconnect : List String
google_needs_reconnect = "invalid_grant" ∷ []

abbrev pub google_config : List String
google_config =
    "invalid_client" ∷ "deleted_client" ∷ "unauthorized_client" ∷ "invalid_scope"
    ∷ "invalid_request" ∷ []

abbrev pub google_transient : List String
google_transient =
    "rateLimitExceeded" ∷ "userRateLimitExceeded" ∷ "backendError" ∷ "internalError" ∷ "authError"
    ∷ []

abbrev pub google_permanent : List String
google_permanent =
    "insufficientPermissions" ∷ "domainPolicy" ∷ "dailyLimitExceeded" ∷ "invalidArgument"
    ∷ "failedPrecondition" ∷ "invalid_recipient" ∷ []

abbrev pub slack_transient : List String
slack_transient =
    "ratelimited" ∷ "request_timeout" ∷ "service_unavailable" ∷ "internal_error" ∷ "fatal_error"
    ∷ []

abbrev pub slack_needs_reconnect : List String
slack_needs_reconnect =
    "token_revoked" ∷ "account_inactive" ∷ "token_expired" ∷ "invalid_auth" ∷ "not_authed"
    ∷ "org_login_required" ∷ []

abbrev pub slack_permanent : List String
slack_permanent =
    "missing_scope" ∷ "not_allowed_token_type" ∷ "channel_not_found" ∷ "is_archived"
    ∷ "no_permission" ∷ "restricted_action" ∷ "no_text" ∷ "no_query" ∷ "invalid_arguments"
    ∷ "not_in_channel" ∷ []

abbrev pub slack_recoverable : List String
slack_recoverable = "not_in_channel" ∷ []

unfoldable pub fallback : Option ℕ → ErrorClass → ErrorClass
fallback none default = default
fallback (some status) default =
    if leb 500 status then transient else if status == 429 then transient else default

unfoldable pub classify_slack : String → Option ℕ → ErrorClass
classify_slack code status =
    if member code slack_transient
    then transient
    else if member code slack_needs_reconnect
    then ErrorClass.needs_reconnect
    else if member code slack_permanent
    then permanent
    else fallback status permanent

unfoldable pub classify_google : String → Option ℕ → ErrorClass
classify_google code status =
    if member code google_needs_reconnect
    then ErrorClass.needs_reconnect
    else if member code google_config
    then config
    else if member code google_transient
    then transient
    else if member code google_permanent
    then permanent
    else fallback status permanent

unfoldable pub classify_provider_error : ProviderError → ErrorClass
classify_provider_error e =
    if str_eq e.provider "slack"
    then classify_slack e.code e.status
    else if str_eq e.provider "google"
    then classify_google e.code e.status
    else fallback e.status permanent

unfoldable pub classify_status : ℕ → ErrorClass
classify_status status = if status == 429 || leb 500 status then transient else permanent

unfoldable pub classify : Exn → ErrorClass
classify (needs_reconnect connection_id detail) = ErrorClass.needs_reconnect
classify (token_unavailable text) = ErrorClass.needs_reconnect
classify (provider_error e) = classify_provider_error e
classify (transport text) = transient
classify (os_error text) = transient
classify (http_status status text) = classify_status status
classify (bug text) = permanent

unfoldable pub is_recoverable : Exn → Bool
is_recoverable (provider_error e) = str_eq e.provider "slack" && member e.code slack_recoverable
is_recoverable _ = false

-- `str(exc)`
unfoldable pub str : Exn → String
unfolding strip
str (provider_error e) = strip (e.provider <> ":" <> e.code <> " " <> e.detail)
str (needs_reconnect connection_id detail) = detail
str (token_unavailable text) = text
str (transport text) = text
str (os_error text) = text
str (bug text) = text
str (http_status status text) = text
