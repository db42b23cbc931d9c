-- ===== src/Connections/Store/Keyed.antt =====
-- The primary key and the natural key of `connections` as an invariant, and each operation of the
-- store keeps it.
use unified_search_safe_send.Prelude.{
  ℕ, suc, ◌<◌, ◌≡◌, refl, sym, ap, ◌∙◌, ◌⊎◌, inl, inr, Bool, true, false, Option, none, some, List,
  [], ◌∷◌, ◌++◌, String, arith, str_eq, eq_iff, ◌==◌, ==_iff, Bool-cases, Option-cases,
  if◌then◌else◌, In, In-update, In-append, Distinct, Distinct-eq, Distinct-update, Distinct-snoc,
  first_where, first_where-In, first_where-some, update_where, exists_where, exists_where-In,
}
use unified_search_safe_send.Enums.{ProviderKind, gmail, slack}
use unified_search_safe_send.Connections.Row.{Connection, same_kind}
use unified_search_safe_send.Connections.Store.{
  Grant, is_placeholder, has_id, has_key, by_id, by_natural_key, adopt_placeholder, before_upsert,
  proceed, Before, set_account, set_landed, new_connection, land,
}

pub record SameKey (x y : Connection) : Type 0 where
  pub user_id : x.user_id ≡ y.user_id
  pub provider : x.provider ≡ y.provider
  pub account : x.external_account_id ≡ y.external_account_id

-- ids are below the next one and distinct, and no two rows have one natural key
pub record IsKeyed (next_id : ℕ) (cs : List Connection) : Type 0 where
  pub fresh : (x : Connection) → In x cs → x.id < next_id
  pub distinct : Distinct (λ c. c.id) cs
  pub natural : (x y : Connection) → In x cs → In y cs → SameKey x y → x.id ≡ y.id

-- a change of a row that names the same account
pub record KeepsKey (f : Connection → Connection) : Type 0 where
  pub id : (c : Connection) → (f c).id ≡ c.id
  pub key : (c : Connection) → SameKey (f c) c

same_kind-eq : (p q : ProviderKind) → same_kind p q ≡ true → p ≡ q
same_kind-eq gmail gmail h = refl
same_kind-eq slack slack h = refl
same_kind-eq gmail slack h = cc
same_kind-eq slack gmail h = cc

same_kind_refl : (p : ProviderKind) → same_kind p p ≡ true
same_kind_refl gmail = refl
same_kind_refl slack = refl

pub has_key-key :
    (user_id : ℕ) (provider : ProviderKind) (account : String) (c : Connection)
    → has_key user_id provider account c ≡ true
    → (c.user_id ≡ user_id) × (c.provider ≡ provider) × (c.external_account_id ≡ account)
has_key-key user_id provider account c h =
    let u : (c.user_id == user_id) ≡ true = ground arith in
    let p : same_kind c.provider provider ≡ true = ground arith in
    let a : str_eq c.external_account_id account ≡ true = ground arith in
    (
      (==_iff c.user_id user_id).0 u,
      same_kind-eq c.provider provider p,
      (eq_iff c.external_account_id account).0 a,
    )

pub key-has_key :
    (x c : Connection) → SameKey c x → has_key x.user_id x.provider x.external_account_id c ≡ true
key-has_key x c k = ground (
  arith,
  (==_iff c.user_id x.user_id).1 k.user_id,
  ap (λ (p : ProviderKind). same_kind p x.provider) k.provider ∙ same_kind_refl x.provider,
  (eq_iff c.external_account_id x.external_account_id).1 k.account,
)

pub update-IsKeyed :
    (next_id : ℕ) (p : Connection → Bool) (f : Connection → Connection) (cs : List Connection)
    → KeepsKey f
    → IsKeyed next_id cs
    → IsKeyed next_id (update_where p f cs)
update-IsKeyed next_id p f cs k h = record {
  fresh = λ y m.
      let (x, mx, e) = In-update p f cs y m in
      rw (ap (λ (c : Connection). c.id) e ∙ kept_id x) (h.fresh x mx);
  distinct = Distinct-update (λ (c : Connection). c.id) p f cs k.id h.distinct;
  natural = λ y z my mz same.
      let (x, mx, e) = In-update p f cs y my in
      let (w, mw, d) = In-update p f cs z mz in
      ap (λ (c : Connection). c.id) e
      ∙ kept_id x
      ∙ h.natural x w mx mw (both x w (rw (e, d) at same))
      ∙ sym (kept_id w)
      ∙ sym (ap (λ (c : Connection). c.id) d);
}
  where
    kept_id : (x : Connection) → (if p x then f x else x).id ≡ x.id
    kept_id x = ground (arith, k.id x)

    kept : (x : Connection) → SameKey (if p x then f x else x) x
    kept x = elim (Bool-cases (p x)) [
      | inl e ↦ rw e (k.key x)
      | inr e ↦ rw e (record { user_id = refl; provider = refl; account = refl })
    ]

    both :
        (x w : Connection) → SameKey (if p x then f x else x) (if p w then f w else w) → SameKey x w
    both x w s = record {
      user_id = sym (kept x).user_id ∙ s.user_id ∙ (kept w).user_id;
      provider = sym (kept x).provider ∙ s.provider ∙ (kept w).provider;
      account = sym (kept x).account ∙ s.account ∙ (kept w).account;
    }

-- the account that a placeholder is bound to has no connection yet
adopted-IsKeyed :
    (next_id now : ℕ) (cs : List Connection) (existing : Connection) (account : String)
    → In existing cs
    → IsKeyed next_id cs
    → exists_where (has_key existing.user_id existing.provider account) cs ≡ false
    → IsKeyed next_id (update_where (has_id existing.id) (set_account now account) cs)
adopted-IsKeyed next_id now cs existing account me h free = record {
  fresh = λ y m.
      let (x, mx, e) = In-update p f cs y m in
      rw (ap (λ (c : Connection). c.id) e ∙ kept_id x) (h.fresh x mx);
  distinct = Distinct-update (λ (c : Connection). c.id) p f cs (λ x. refl) h.distinct;
  natural = λ y z my mz same.
      let (x, mx, e) = In-update p f cs y my in
      let (w, mw, d) = In-update p f cs z mz in
      ap (λ (c : Connection). c.id) e
      ∙ kept_id x
      ∙ both x w mx mw (rw (e, d) at same)
      ∙ sym (kept_id w)
      ∙ sym (ap (λ (c : Connection). c.id) d);
}
  where
    p : Connection → Bool
    p = has_id existing.id

    f : Connection → Connection
    f = set_account now account

    kept_id :
        (x : Connection) → (if has_id existing.id x then set_account now account x else x).id ≡ x.id
    kept_id x = ground arith

    mine : (x : Connection) → In x cs → has_id existing.id x ≡ true → x ≡ existing
    mine x m t =
        Distinct-eq (λ (c : Connection). c.id) cs x existing h.distinct m me
          ((==_iff x.id existing.id).0 t)

    -- the adopted row shares its new key with no other row
    alone :
        (x w : Connection)
        → In x cs
        → In w cs
        → has_id existing.id x ≡ true
        → SameKey w (set_account now account x)
        → true ≡ false
    alone x w mx mw t s =
        let e = mine x mx t in
        sym (
          exists_where-In (has_key existing.user_id existing.provider account) cs w mw
            (key-has_key (set_account now account existing) w (rw e at s)))
        ∙ free

    both :
        (x w : Connection)
        → In x cs
        → In w cs
        → SameKey
            (if has_id existing.id x then set_account now account x else x)
            (if has_id existing.id w then set_account now account w else w)
        → x.id ≡ w.id
    both x w mx mw s = elim (Bool-cases (has_id existing.id x)) [
      | inl a ↦ elim (Bool-cases (has_id existing.id w)) [
        | inl b ↦ (==_iff x.id existing.id).0 a ∙ sym ((==_iff w.id existing.id).0 b)
        | inr b ↦ cc (alone x w mx mw a (turned (rw (a, b) at s)))
      ]
      | inr a ↦ elim (Bool-cases (has_id existing.id w)) [
        | inl b ↦ cc (alone w x mw mx b (rw (a, b) at s))
        | inr b ↦ h.natural x w mx mw (rw (a, b) at s)
      ]
    ]
      where
        turned : {a b : Connection} → SameKey a b → SameKey b a
        turned s = record {
          user_id = sym s.user_id;
          provider = sym s.provider;
          account = sym s.account;
        }

adopt-IsKeyed :
    (next_id now : ℕ) (cs : List Connection) (existing : Connection) (account : String)
    → In existing cs
    → IsKeyed next_id cs
    → IsKeyed next_id (adopt_placeholder now cs existing account)
unfolding adopt_placeholder
adopt-IsKeyed next_id now cs existing account me h =
    elim (Bool-cases (exists_where (has_key existing.user_id existing.provider account) cs)) [
      | inl e ↦ rw e h
      | inr e ↦ rw e (adopted-IsKeyed next_id now cs existing account me h e)
    ]

pub before_upsert-IsKeyed :
    (next_id now : ℕ) (cs : List Connection) (reconnecting_id : Option ℕ) (account : String)
    (checked : List Connection)
    → IsKeyed next_id cs
    → before_upsert now cs reconnecting_id account ≡ proceed checked
    → IsKeyed next_id checked
unfolding before_upsert by_id
before_upsert-IsKeyed next_id now cs none account checked h e =
    let q : cs ≡ checked = cc in rw q at h
before_upsert-IsKeyed next_id now cs (some id) account checked h e =
    elim (Option-cases (first_where (has_id id) cs)) [
      | inl n ↦
          let q : Before.proceed cs ≡ proceed checked = ground (arith, n, e) in
          let r : cs ≡ checked = cc in rw r at h
      | inr (c, f) ↦ elim (Bool-cases (str_eq c.external_account_id account)) [
        | inl s ↦
            let q : Before.proceed cs ≡ proceed checked = ground (arith, f, s, e) in
            let r : cs ≡ checked = cc in rw r at h
        | inr s ↦ elim (Bool-cases (is_placeholder c.external_account_id)) [
          | inr t ↦ absurd (ground (arith, f, s, t, e))
          | inl t ↦
              let q : Before.proceed (adopt_placeholder now cs c account) ≡ proceed checked =
                ground (arith, f, s, t, e) in
              let r : adopt_placeholder now cs c account ≡ checked = cc in
              let k : IsKeyed next_id (adopt_placeholder now cs c account) =
                adopt-IsKeyed next_id now cs c account (first_where-In (has_id id) cs c f).0 h in
              rw r at k
        ]
      ]
    ]

-- a row with the key is found by it
unclaimed :
    (cs : List Connection) (x row : Connection)
    → In x cs
    → SameKey x row
    → by_natural_key cs row.user_id row.provider row.external_account_id ≡ none
    → true ≡ false
unfolding by_natural_key
unclaimed cs x row m s free =
    let (y, e) =
      first_where-some (has_key row.user_id row.provider row.external_account_id) cs x m
        (key-has_key row x s) in
    let q : some y ≡ none = sym e ∙ free in cc

appended-IsKeyed :
    (id : ℕ) (row : Connection) (cs : List Connection)
    → IsKeyed id cs
    → row.id ≡ id
    → by_natural_key cs row.user_id row.provider row.external_account_id ≡ none
    → IsKeyed (suc id) (cs ++ row ∷ [])
appended-IsKeyed id row cs h i free = record {
  fresh = λ x m. elim (In-append cs (row ∷ []) x m) [
    | inl k ↦ omega (arith, h.fresh x k)
    | inr (inl e) ↦ rw (e, i) (omega arith)
    | inr (inr k) ↦ absurd k
  ];
  distinct =
      Distinct-snoc (λ (c : Connection). c.id) cs row (λ x m e. omega (arith, h.fresh x m, e, i))
        h.distinct;
  natural =
      λ x y mx my same. pair x y (In-append cs (row ∷ []) x mx) (In-append cs (row ∷ []) y my) same;
}
  where
    pair :
        (x y : Connection)
        → In x cs ⊎ In x (row ∷ [])
        → In y cs ⊎ In y (row ∷ [])
        → SameKey x y
        → x.id ≡ y.id
    pair x y (inl k) (inl l) same = h.natural x y k l same
    pair x y (inl k) (inr (inl e)) same = cc (unclaimed cs x row k (rw e at same) free)
    pair x y (inr (inl d)) (inl l) same =
        let s : SameKey row y = rw d at same in
        cc (
          unclaimed cs y row l
            (record { user_id = sym s.user_id; provider = sym s.provider; account = sym s.account })
            free)
    pair x y (inr (inl d)) (inr (inl e)) same = rw (d, e) refl
    pair x y (inr (inr k)) n same = absurd k
    pair x y (inl k) (inr (inr l)) same = absurd l
    pair x y (inr (inl d)) (inr (inr l)) same = absurd l

pub raise-IsKeyed : (id : ℕ) (cs : List Connection) → IsKeyed id cs → IsKeyed (suc id) cs
raise-IsKeyed id cs h = record {
  fresh = λ x m. omega (arith, h.fresh x m);
  distinct = h.distinct;
  natural = h.natural;
}

pub land-IsKeyed :
    (now id user_id : ℕ) (provider : ProviderKind) (grant : Grant) (cs : List Connection)
    → IsKeyed id cs
    → IsKeyed (suc id) (land now id cs user_id provider grant).1
unfolding land new_connection
land-IsKeyed now id user_id provider grant cs h =
    elim (Option-cases (by_natural_key cs user_id provider grant.external_account_id)) [
      | inl e ↦
          rw (e, land)
            (appended-IsKeyed id (new_connection now id user_id provider grant) cs h refl e)
      | inr (c, e) ↦
          rw (e, land)
            (raise-IsKeyed id
              (update_where (has_key user_id provider grant.external_account_id)
                (set_landed now grant) cs)
              (update-IsKeyed id (has_key user_id provider grant.external_account_id)
                (set_landed now grant) cs unmoved h))
    ]
  where
    unmoved : KeepsKey (set_landed now grant)
    unmoved = record {
      id = λ c. refl;
      key = λ c. record { user_id = refl; provider = refl; account = refl };
    }
