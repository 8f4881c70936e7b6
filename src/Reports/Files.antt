-- ===== src/Reports/Files.antt =====
-- Rows and files after packages/schema/src/endpoints/reports/reportDelete.ts, whatever fails.
use mathlib.Core.List.{mem-cons, not-mem-nil}
use mathlib.Core.Logic.Or
use text.Mathlib.TextEquality.{eq_iff}
use ngfw_sh.Prelude.{
  ◌==◌, Bool-cases, Option-cases, truthy, truthy-eq, filter, any, All, All-prop, All-map,
  first_some, All-of_any, any_of_mem, String, ◌≡◌, refl, inl, inr, Bool, true, false, not, Option,
  none, some, List, [], ◌∷◌, Mem, arith,
}
use ngfw_sh.Platform.Database.{Database}
use ngfw_sh.Platform.Bucket.{Bucket}
use ngfw_sh.Reports.{Report, owned_report, same_report, Reports, report_delete}

-- The primary key.
abbrev pub Distinct : List Report → Type 0
Distinct [] = Unit
Distinct (r ∷ rs) = (any (same_report r) rs ≡ false) × Distinct rs

abbrev under : String → Option String → Bool
under k none = false
under k (some j) = j == k

-- That a row has its file under a key.
abbrev pub has_file : String → Report → Bool
has_file k r = under k r.r2_key

-- A row that the delete takes does not have the file.
abbrev Without : String → String → String → Report → Type 0
Without id user k x = owned_report id user x ≡ true → has_file k x ≡ false

module _ (id user k : String) (r : Report) (mine : owned_report id user r ≡ true)
    (kept : has_file k r ≡ false) where
  taken : (rs : List Report) → Distinct rs → Mem r rs → All (Without id user k) rs
  taken [] d m = absurd (not-mem-nil m)
  taken (x ∷ rs) (d, ds) m =
      Or.elim (All-prop (Without id user k) (λ y. hlevel) (x ∷ rs)) (mem-cons.0 m)
        (λ same. (
          (λ e. rw (← same) kept),
          All-map
              (λ y h e.
                ground
                  (arith, same, eq_iff x.id y.id, eq_iff y.id id, eq_iff x.id id, eq_iff r.id id))
              rs (All-of_any (same_report x) rs d),
        ))
        λ later. (
          (λ e. ground (
            arith,
            any_of_mem (same_report x) rs later d,
            eq_iff x.id r.id,
            eq_iff x.id id,
            eq_iff r.id id,
          )),
          taken rs ds later,
        )

any-filter_without :
    (id user k : String) (rs : List Report)
    → All (λ x. owned_report id user x ≡ true → has_file k x ≡ false) rs
    → any (has_file k) (filter (λ x. not (owned_report id user x)) rs) ≡ any (has_file k) rs
any-filter_without id user k [] h = refl
any-filter_without id user k (x ∷ rs) (p, h) = ground (arith, any-filter_without id user k rs h)

module _ (d1 : Database) (r2 : Bucket) where
  open d1 use {rows, select, delete, select_lem, delete_lem}
  open r2 use {has, delete as delete_object, delete_done, delete_failed, has_key}

  -- Every file in the bucket belongs to a row.
  abbrev pub NoOrphans : Reports d1 r2 → Type 0
  NoOrphans s = (k : String) → has k s.files ≡ true → any (has_file k) (rows s.reports) ≡ true

  module _ (id user k : String) (t : d1.Table Report) (r : Report) (d : Distinct (rows t))
      (m : Mem r (rows t)) (mine : owned_report id user r ≡ true)
      (kept : has_file k r ≡ false) where
    deleted :
        (t' : d1.Table Report)
        → delete (owned_report id user) t ≡ some t'
        → any (has_file k) (rows t') ≡ any (has_file k) (rows t)
    deleted t' e =
        rw (delete_lem (owned_report id user) t e)
          (any-filter_without id user k (rows t) (taken id user k r mine kept (rows t) d m))

  without_key :
      (k : String) (o : Option String) (f : r2.Store)
      → truthy o ≡ none
      → has k f ≡ true
      → under k o ≡ false
  without_key k none f e h = refl
  without_key k (some j) f e h = ground (arith, has_key f, eq_iff j k, eq_iff j "")

  with_key :
      (k key : String) (o : Option String)
      → truthy o ≡ some key
      → key == k ≡ false
      → under k o ≡ false
  with_key k key none e h = refl
  with_key k key (some j) e h = ground (arith, truthy-eq j)

  -- Where reports have distinct ids and every file in the bucket belongs to a report, that is
  -- still so after any delete, whether it succeeds or stops at a failure.
  pub report_delete-NoOrphans :
      (user id : String) (s : Reports d1 r2)
      → Distinct (rows s.reports)
      → NoOrphans s
      → NoOrphans (report_delete d1 r2 user id s).1
  unfolding report_delete
  report_delete-NoOrphans user id s d n k h =
      elim (Option-cases (select (owned_report id user) s.reports)) [
        | inl e ↦ ground (arith, n k)
        | inr ([], e) ↦ ground (arith, n k)
        | inr (r ∷ rs, e) ↦
            let found =
              first_some (owned_report id user) (rows s.reports)
                (select_lem (owned_report id user) s.reports e) refl in
            let gone = deleted id user k s.reports r d found.0 found.1 in
            elim (Option-cases (truthy r.r2_key)) [
              | inl none_left ↦ elim (Option-cases (delete (owned_report id user) s.reports)) [
                | inl f ↦ ground (arith, n k)
                | inr (t', f) ↦
                    let here : has k s.files ≡ true = ground (arith) in
                    let kept : has_file k r ≡ false =
                      without_key k r.r2_key s.files none_left here in
                    ground (arith, n k here, gone kept t' f)
              ]
              | inr (key, some_left) ↦ elim (Bool-cases (delete_object key s.files).1) [
                | inl done ↦
                    let removed = delete_done key s.files k done in
                    elim (Option-cases (delete (owned_report id user) s.reports)) [
                      | inl f ↦ ground (arith, n k)
                      | inr (t', f) ↦
                          let here : (key == k ≡ false) × (has k s.files ≡ true) = ground (arith) in
                          let kept : has_file k r ≡ false =
                            with_key k key r.r2_key some_left here.0 in
                          ground (arith, n k here.1, gone kept t' f)
                    ]
                | inr undone ↦ ground (arith, n k, delete_failed key s.files k undone)
              ]
            ]
      ]
