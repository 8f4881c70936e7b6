-- ===== src/Ips/Alerts.antt =====
-- A user's alerts: packages/schema/src/endpoints/ips/alertList.ts.
use ngfw_sh.Prelude.{
  Bool, ◌==◌, ◌↔◌, ◌⊎◌, refl, sym, ap, if◌then◌else◌, true, Option, both, ◌&&◌, leb, Bool-cases,
  Option-cases, or_else, length, filter, length-take, length-perm, ℕ, ◌≤◌, String, ◌≡◌, ◌∙◌, inl,
  inr, none, some, List, Perm, arith,
}
use text.Mathlib.TextEquality.{eq_iff}
use ngfw_sh.Platform.Http.{ok, value}
use ngfw_sh.Platform.Database.{Bound, limited, offset_by, Descending, Database, up_to, below_zero}
use ngfw_sh.Ips.{
  clause, severity_text, AlertSeverity, low, medium, high, critical, IpsAlert, AlertQuery,
  wanted_alert, by_time, min_500, AlertPage, alert_list,
}

-- A text that is asked for, unless it is empty, is the one there.
abbrev Asks : Option String → String → Type 0
Asks none a = Unit
Asks (some w) a = (w ≡ "") ⊎ (a ≡ w)

abbrev AsksSeverity : Option AlertSeverity → AlertSeverity → Type 0
AsksSeverity none a = Unit
AsksSeverity (some w) a = a ≡ w

-- The user's alert, with what the query asks for.
pub record IsWanted (user : String) (q : AlertQuery) (a : IpsAlert) : Type 0 where
  pub owner_id : a.owner_id ≡ user
  pub category : Asks q.category a.category
  pub severity : AsksSeverity q.severity a.severity
  pub src_ip : Asks q.src_ip a.src_ip
  pub dst_ip : Asks q.dst_ip a.dst_ip

clause_iff : (o : Option String) (a : String) → (clause o (some a) ≡ true) ↔ Asks o a
clause_iff none a = (λ h. tt, λ h. refl)
clause_iff (some w) a = elim (Bool-cases (w == "")) [
  | inl e ↦ (λ h. inl ((eq_iff w "").0 e), λ h. rw (e, clause) refl)
  | inr e ↦ (
    λ h. inr ((eq_iff a w).0 (rw (e, clause) at h)),
    λ h. elim h [
      | inl empty ↦ let full = (eq_iff w "").1 empty in cc
      | inr same ↦ rw (e, clause) ((eq_iff a w).1 same)
    ],
  )
]

severity_of : String → AlertSeverity
severity_of t =
    if t == "low"
    then low
    else if t == "medium"
    then medium
    else if t == "high"
    then high
    else critical

severity_of-text : (a : AlertSeverity) → severity_of (severity_text a) ≡ a
unfolding severity_of
severity_of-text low = refl
severity_of-text medium = refl
severity_of-text high = refl
severity_of-text critical = refl

severity_iff :
    (o : Option AlertSeverity) (a : AlertSeverity)
    → (elim o [ none ↦ true | some w ↦ severity_text a == severity_text w ] ≡ true)
      ↔ AsksSeverity o a
severity_iff none a = (λ h. tt, λ h. refl)
severity_iff (some w) a = (
  λ h.
      sym (severity_of-text a)
      ∙ ap severity_of ((eq_iff (severity_text a) (severity_text w)).0 h)
      ∙ severity_of-text w,
  λ h. (eq_iff (severity_text a) (severity_text w)).1 (ap severity_text h),
)

wanted_alert-IsWanted :
    (user : String) (q : AlertQuery) (a : IpsAlert)
    → (wanted_alert user q a ≡ true) ↔ IsWanted user q a
wanted_alert-IsWanted user q a =
    let owned = a.owner_id == user in
    let c = clause q.category (some a.category) in
    let v : Bool = elim q.severity [
      | none ↦ true
      | some w ↦ severity_text a.severity == severity_text w
    ] in
    let x = clause q.src_ip (some a.src_ip) in
    let y = clause q.dst_ip (some a.dst_ip) in
    (
      λ h.
          let (ocvx, dst) = both (owned && c && v && x) y h in
          let (ocv, src) = both (owned && c && v) x ocvx in
          let (oc, severe) = both (owned && c) v ocv in
          let (o, filed) = both owned c oc in
          record {
            owner_id = (eq_iff a.owner_id user).0 o;
            category = (clause_iff q.category a.category).0 filed;
            severity = (severity_iff q.severity a.severity).0 severe;
            src_ip = (clause_iff q.src_ip a.src_ip).0 src;
            dst_ip = (clause_iff q.dst_ip a.dst_ip).0 dst;
          },
      λ w.
          rw
            (
              (eq_iff a.owner_id user).1 w.owner_id,
              (clause_iff q.category a.category).1 w.category,
              (severity_iff q.severity a.severity).1 w.severity,
              (clause_iff q.src_ip a.src_ip).1 w.src_ip,
              (clause_iff q.dst_ip a.dst_ip).1 w.dst_ip,
            )
            refl,
    )

module _ (d1 : Database) where
  open d1 use {Table, rows, count, page, count_lem, page_lem}

  -- A list of alerts is a page of the alerts that match, the newest first, and its total counts all that
  -- match: those of the user that have each category, severity and address that the query names and that
  -- is not empty. The page has at most 500 alerts if the limit that is asked for is
  -- not negative.
  pub alert_list_lem :
      (user : String) (q : AlertQuery) (t : Table IpsAlert) {p : AlertPage}
      → (alert_list d1 user q t).0 ≡ value (ok 200 p)
      → ((all : List IpsAlert) × Perm all (filter (wanted_alert user q) (rows t))
          × Descending by_time all
          × (p.alerts ≡ limited p.limit (offset_by p.offset all)))
        × (p.total ≡ length (filter (wanted_alert user q) (rows t)))
        × ((n : ℕ) → or_else q.limit (up_to 50) ≡ up_to n → length p.alerts ≤ 500)
        × ((a : IpsAlert) → (wanted_alert user q a ≡ true) ↔ IsWanted user q a)
  unfolding alert_list
  alert_list_lem user q t {p = p} h =
      let limit = or_else q.limit (up_to 50) in
      let offset = or_else q.offset (up_to 0) in
      elim (Option-cases (count (wanted_alert user q) t)) [
        | inl e ↦ ground arith
        | inr (n, e) ↦
            elim (Option-cases (page (wanted_alert user q) by_time (min_500 limit) offset t)) [
              | inl f ↦ ground arith
              | inr (rs, f) ↦
                  let (all, same, down, cut) =
                    page_lem (wanted_alert user q) by_time (min_500 limit) offset t f in
                  (
                    (all, same, down, ground (arith, cut)),
                    ground (arith, count_lem (wanted_alert user q) t e),
                    λ m bound. short limit m (offset_by offset all) bound (ground (arith, cut)),
                    wanted_alert-IsWanted user q,
                  )
            ]
      ]
    where
      short :
          (limit : Bound) (m : ℕ) (xs : List IpsAlert)
          → limit ≡ up_to m
          → p.alerts ≡ limited (min_500 limit) xs
          → length p.alerts ≤ 500
      short below_zero m xs bound e = ground arith
      short (up_to n) m xs bound e = elim (Bool-cases (leb n 500)) [
        | inl small ↦ rw e (ground (arith, length-take n xs))
        | inr big ↦ rw e (ground (arith, length-take 500 xs))
      ]

  -- A negative limit without an offset lifts the bound of 500: every alert that matches is listed.
  pub alert_list_unbounded :
      (user : String) (q : AlertQuery) (t : Table IpsAlert) {p : AlertPage}
      → q.limit ≡ some below_zero
      → q.offset ≡ none
      → (alert_list d1 user q t).0 ≡ value (ok 200 p)
      → length p.alerts ≡ length (filter (wanted_alert user q) (rows t))
  unfolding alert_list
  alert_list_unbounded user q t {p = p} l o h =
      let ((all, same, down, cut), total, bound, wanted) = alert_list_lem user q t h in
      let whole : p.alerts ≡ all = cut ∙ bounds_lem all in rw whole (length-perm same)
    where
      bounds_lem : (all : List IpsAlert) → limited p.limit (offset_by p.offset all) ≡ all
      bounds_lem all = elim (Option-cases (count (wanted_alert user q) t)) [
        | inl e ↦ ground arith
        | inr (n, e) ↦
            elim (Option-cases (page (wanted_alert user q) by_time below_zero (up_to 0) t)) [
              | inl f ↦ ground arith
              | inr (rs, f) ↦ ground arith
            ]
      ]
