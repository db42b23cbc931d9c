-- ===== src/Adapters/Registry.antt =====
-- packages/core/adapters/registry.py: the registered sources as a list, in registration order. What a
-- source's factory builds is not kept: the adapter's answer is an argument of a run.
use unified_search_safe_send.Prelude.{
  Bool, Option, List, [], ◌∷◌, String, str_eq, if◌then◌else◌, first_where, where_, map,
}
use unified_search_safe_send.Enums.{SourceMode}

pub record Registration : Type 0 where
  pub source : String
  pub participates_by_default : Bool
  pub mode : SourceMode
  pub requires_connection : Bool

-- an assignment to a dict keeps the place of a key that it has
unfoldable pub register : Registration → List Registration → List Registration
register reg [] = reg ∷ []
register reg (r ∷ rs) =
    let rest = register reg rs in if str_eq r.source reg.source then reg ∷ rs else r ∷ rest

-- `none` is UnknownSource
unfoldable pub registration : List Registration → String → Option Registration
registration registry source = first_where (λ r. str_eq r.source source) registry

unfoldable pub default_sources : List Registration → List String
default_sources registry = map (λ r. r.source) (where_ (λ r. r.participates_by_default) registry)

unfoldable pub known_sources : List Registration → List String
known_sources registry = map (λ r. r.source) registry
