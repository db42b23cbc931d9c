-- ===== src/Adapters/Types.antt =====
-- packages/core/adapters/types.py: the shape of a result. `parse_iso8601` is datetime.fromisoformat,
-- an argument, and `none` where it raises.
use unified_search_safe_send.Prelude.{
  ℕ, Bool, true, not, ◌&&◌, Option, none, some, List, [], ◌∷◌, ◌++◌, String, str_eq, is_some,
}
use unified_search_safe_send.Prelude.Text.{strip}

pub record Result : Type 0 where
  pub source : String
  pub id : String
  pub title : String
  pub snippet : String
  pub url : String
  pub author : Option String
  pub timestamp : Option String

abbrev pub optional : String → Option String → List (String × String)
optional key none = []
optional key (some value) = (key, value) ∷ []

unfoldable pub as_public_dict : Result → List (String × String)
as_public_dict r =
    ("source", r.source)
    ∷ ("id", r.id)
    ∷ ("title", r.title)
    ∷ ("snippet", r.snippet)
    ∷ (optional "author" r.author ++ (optional "timestamp" r.timestamp ++ ("url", r.url) ∷ []))

unfoldable pub occurred_at : (String → Option ℕ) → Result → Option ℕ
occurred_at parse_iso8601 r = elim r.timestamp [ none ↦ none | some raw ↦ parse_iso8601 raw ]

abbrev pub filled : String → Bool
filled value = not (str_eq (strip value) "")

-- `assert_normalized` returns, and raises no NormalizationError
unfoldable pub is_normalized : (String → Option ℕ) → Result → Bool
is_normalized parse_iso8601 r =
    filled r.source
    && (filled r.id
        && (filled r.title
            && (filled r.snippet
                && (filled r.url && (elim r.timestamp [
                  | none ↦ true
                  | some raw ↦ is_some (parse_iso8601 raw)
                ])))))
