-- ===== src/Connections/Scopes.antt =====
-- packages/core/connections/scopes.py, and the scopes that connections/oauth.py requests.
pub mod Sufficient
use unified_search_safe_send.Prelude.{
  Bool, true, false, not, List, [], ◌∷◌, ◌++◌, String, str_eq, if◌then◌else◌, exists_where, where_,
  map,
}
use unified_search_safe_send.Enums.{ProviderKind, gmail, slack}

-- GOOGLE and SLACK of connections/oauth.py
abbrev pub provider_scopes : ProviderKind → List String
provider_scopes gmail =
    "openid" ∷ "email" ∷ "https://www.googleapis.com/auth/gmail.readonly"
    ∷ "https://www.googleapis.com/auth/gmail.compose" ∷ []
provider_scopes slack =
    "chat:write" ∷ "chat:write.public" ∷ "channels:read" ∷ "channels:history" ∷ "channels:join"
    ∷ "metadata.message:read" ∷ []

abbrev pub user_scopes : ProviderKind → List String
user_scopes gmail = []
user_scopes slack = "search:read" ∷ []

unfoldable pub canonical : String → String
canonical scope =
    if str_eq scope "email"
    then "https://www.googleapis.com/auth/userinfo.email"
    else if str_eq scope "profile"
    then "https://www.googleapis.com/auth/userinfo.profile"
    else scope

abbrev pub has_scope : List String → String → Bool
has_scope scopes scope = exists_where (str_eq scope) scopes

-- dict.fromkeys: the first of equal entries, in order
abbrev pub dedupe : List String → List String → List String
dedupe seen [] = []
dedupe seen (scope ∷ scopes) =
    let rest = dedupe (scope ∷ seen) scopes in if has_scope seen scope then rest else scope ∷ rest

unfoldable pub required_scopes : ProviderKind → List String
required_scopes provider = dedupe [] (provider_scopes provider ++ user_scopes provider)

abbrev pub is_missing : List String → String → Bool
is_missing granted scope = not (has_scope (map canonical granted) (canonical scope))

unfoldable pub missing_scopes : ProviderKind → List String → List String
missing_scopes provider granted = where_ (is_missing granted) (required_scopes provider)

unfoldable pub satisfied : ProviderKind → List String → Bool
satisfied provider granted = elim (missing_scopes provider granted) [ [] ↦ true | _ ↦ false ]
