-- ===== src/Jobs/Queue/Consistent.antt =====
-- The constraints of the `jobs` table as an invariant: the CHECKs `jobs_attempts_bounded` and
-- `jobs_lease_consistent`, the primary key, and the unique indexes `jobs_running_partition_uniq` and
-- `jobs_dedupe_idx`. A statement that keeps it is one that PostgreSQL does not refuse.
use unified_search_safe_send.Prelude.{
  ◌≤◌, ◌<◌, ◌≡◌, refl, sym, ◌∙◌, Bool, true, ◌&&◌, some, String, is_some, In, In-update, Distinct,
  Distinct-update, if◌then◌else◌, Bool-cases, inl, inr,
}
use unified_search_safe_send.Jobs.Table.{Job, Jobs, is_running, is_live}
use unified_search_safe_send.Jobs.Queue.{update_rows}

abbrev pub has_lease : Job → Bool
has_lease j = is_some j.claimed_at && is_some j.lease_expires_at

pub record IsConsistent (t : Jobs) : Type 0 where
  pub fresh : (x : Job) → In x t.rows → x.id < t.next_id
  pub distinct : Distinct (λ j. j.id) t.rows
  pub bounded : (x : Job) → In x t.rows → x.attempts ≤ x.max_attempts
  pub leased : (x : Job) → In x t.rows → is_running x.state ≡ has_lease x
  pub partition_uniq :
      (x y : Job) (k : String)
      → In x t.rows
      → In y t.rows
      → is_running x.state ≡ true
      → is_running y.state ≡ true
      → x.partition_key ≡ some k
      → y.partition_key ≡ some k
      → x.id ≡ y.id
  pub dedupe_uniq :
      (x y : Job) (k : String)
      → In x t.rows
      → In y t.rows
      → is_live x.state ≡ true
      → is_live y.state ≡ true
      → x.dedupe_key ≡ some k
      → y.dedupe_key ≡ some k
      → x.id ≡ y.id

-- A change of one row that keeps every constraint, whatever the other rows are.
pub record IsTame (x y : Job) : Type 0 where
  pub same_id : y.id ≡ x.id
  pub same_partition : y.partition_key ≡ x.partition_key
  pub same_dedupe : y.dedupe_key ≡ x.dedupe_key
  pub still_bounded : x.attempts ≤ x.max_attempts → y.attempts ≤ y.max_attempts
  pub still_leased : is_running x.state ≡ has_lease x → is_running y.state ≡ has_lease y
  pub was_running : is_running y.state ≡ true → is_running x.state ≡ true
  pub was_live : is_live y.state ≡ true → is_live x.state ≡ true

abbrev pub changed : (Job → Bool) → (Job → Job) → Job → Job
changed p f x = if p x then f x else x

changed-IsTame :
    (p : Job → Bool) (f : Job → Job) (x : Job)
    → (p x ≡ true → IsTame x (f x))
    → IsTame x (changed p f x)
changed-IsTame p f x h = elim (Bool-cases (p x)) [
  | inl e ↦ rw e (h e)
  | inr e ↦ rw e (record {
    same_id = refl;
    same_partition = refl;
    same_dedupe = refl;
    still_bounded = λ b. b;
    still_leased = λ b. b;
    was_running = λ b. b;
    was_live = λ b. b;
  })
]

-- An UPDATE whose every change is tame keeps the table consistent.
pub update_rows-IsConsistent :
    (p : Job → Bool) (f : Job → Job) (t : Jobs)
    → ((x : Job) → (f x).id ≡ x.id)
    → ((x : Job) → p x ≡ true → IsTame x (f x))
    → IsConsistent t
    → IsConsistent (update_rows p f t)
update_rows-IsConsistent p f t same tame c = record {
  fresh =
      λ y m. let (x, mx, e) = In-update p f t.rows y m in rw e (rw ((ok x).same_id) (c.fresh x mx));
  distinct = Distinct-update (λ j. j.id) p f t.rows same c.distinct;
  bounded = λ y m.
      let (x, mx, e) = In-update p f t.rows y m in rw e ((ok x).still_bounded (c.bounded x mx));
  leased = λ y m.
      let (x, mx, e) = In-update p f t.rows y m in rw e ((ok x).still_leased (c.leased x mx));
  partition_uniq = λ y z k my mz ry rz ky kz.
      let (x, mx, e) = In-update p f t.rows y my in
      let (w, mw, d) = In-update p f t.rows z mz in
      cc (
        e,
        d,
        (ok x).same_id,
        (ok w).same_id,
        c.partition_uniq x w k mx mw ((ok x).was_running (rw e at ry))
            ((ok w).was_running (rw d at rz)) (sym (ok x).same_partition ∙ rw e at ky)
            (sym (ok w).same_partition ∙ rw d at kz),
      );
  dedupe_uniq = λ y z k my mz ry rz ky kz.
      let (x, mx, e) = In-update p f t.rows y my in
      let (w, mw, d) = In-update p f t.rows z mz in
      cc (
        e,
        d,
        (ok x).same_id,
        (ok w).same_id,
        c.dedupe_uniq x w k mx mw ((ok x).was_live (rw e at ry)) ((ok w).was_live (rw d at rz))
            (sym (ok x).same_dedupe ∙ rw e at ky) (sym (ok w).same_dedupe ∙ rw d at kz),
      );
}
  where
    ok : (x : Job) → IsTame x (changed p f x)
    ok x = changed-IsTame p f x (tame x)
