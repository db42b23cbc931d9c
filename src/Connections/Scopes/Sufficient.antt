-- ===== src/Connections/Scopes/Sufficient.antt =====
-- A grant may have more scopes than were asked for.
use unified_search_safe_send.Prelude.{
  ◌≡◌, refl, ap, inl, inr, Bool, true, false, List, [], ◌∷◌, ◌++◌, String, arith, Bool-cases,
  where_, map,
}
use unified_search_safe_send.Enums.{ProviderKind}
use unified_search_safe_send.Connections.Scopes.{
  canonical, has_scope, required_scopes, is_missing, missing_scopes, satisfied,
}

has_scope-append :
    (xs ys : List String) (scope : String)
    → has_scope xs scope ≡ true
    → has_scope (xs ++ ys) scope ≡ true
has_scope-append [] ys scope h = cc
has_scope-append (x ∷ xs) ys scope h = ground (arith, h, has_scope-append xs ys scope)

map-append : (f : String → String) (xs ys : List String) → map f (xs ++ ys) ≡ map f xs ++ map f ys
map-append f [] ys = refl
map-append f (x ∷ xs) ys = ap (λ zs. f x ∷ zs) (map-append f xs ys)

still_granted :
    (granted more : List String) (scope : String)
    → is_missing granted scope ≡ false
    → is_missing (granted ++ more) scope ≡ false
still_granted granted more scope h =
    let had : has_scope (map canonical granted) (canonical scope) ≡ true = ground arith in
    rw
      (
        map-append canonical granted more,
        has_scope-append (map canonical granted) (map canonical more) (canonical scope) had,
      )
      refl

none_missing :
    (granted more scopes : List String)
    → where_ (is_missing granted) scopes ≡ []
    → where_ (is_missing (granted ++ more)) scopes ≡ []
none_missing granted more [] h = refl
none_missing granted more (x ∷ xs) h = elim (Bool-cases (is_missing granted x)) [
  | inl e ↦ absurd (ground (arith, e, h))
  | inr e ↦ rw (still_granted granted more x e) (none_missing granted more xs (rw e at h))
]

nothing : (xs : List String) → (elim xs as (λ x. Bool) [ [] ↦ true | _ ↦ false ]) ≡ true → xs ≡ []
nothing [] h = refl
nothing (x ∷ xs) h = cc

-- A grant that suffices for a provider suffices with any further scopes beside it.
pub satisfied-superset :
    (provider : ProviderKind) (granted more : List String)
    → satisfied provider granted ≡ true
    → satisfied provider (granted ++ more) ≡ true
unfolding satisfied missing_scopes
satisfied-superset provider granted more h =
    let e =
      none_missing granted more (required_scopes provider)
        (nothing (where_ (is_missing granted) (required_scopes provider)) h) in
    ap (λ (xs : List String). elim xs as (λ x. Bool) [ [] ↦ true | _ ↦ false ]) e
