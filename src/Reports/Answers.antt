-- ===== src/Reports/Answers.antt =====
-- What packages/schema/src/endpoints/reports answers.
use ngfw_sh.Prelude.{
  Option-cases, length, take, drop, filter, any, first_some, ℕ, ◌≤◌, String, ◌≡◌, refl, ◌≢◌, inl,
  inr, true, false, none, some, List, [], ◌∷◌, Mem, Perm, arith,
}
use ngfw_sh.Platform.Http.{ok, value}
use ngfw_sh.Platform.Database.{Descending, Database, up_to}
use ngfw_sh.Platform.Bucket.{Bucket}
use ngfw_sh.Fleet.{DeviceInternal, owned_device}
use ngfw_sh.Reports.{
  Report, GenerateBody, generate_body, new_report, owned_report, same_report, ReportReply,
  ReportQuery, ReportPage, of_user, wanted, valid_query, by_creation, Reports, report_generate,
  report_read, report_list, completed,
}

module _ (d1 : Database) (r2 : Bucket) where
  open d1 use {rows, select, insert, count, page, select_lem, insert_lem, count_lem, page_lem}

  -- A list is a page of the user's reports that match the query, the newest first, at most a
  -- hundred of them; its total counts all the user's reports, whatever the query asks for.
  report_list_lem :
      (user : String) (q : ReportQuery) (s : Reports d1 r2) {p : ReportPage}
      → (report_list d1 r2 user q s).0 ≡ value (ok 200 p)
      → ((all : List Report) × Perm all (filter (wanted user q) (rows s.reports))
          × Descending by_creation all
          × (p.result ≡ take q.limit (drop q.offset all)))
        × (p.total ≡ length (filter (of_user user) (rows s.reports)))
        × (q.limit ≤ 100)
  unfolding report_list valid_query
  report_list_lem user q s {p = p} h =
      elim (Option-cases
        (page (wanted user q) by_creation (up_to q.limit) (up_to q.offset) s.reports)) [
          | inl e ↦ ground arith
          | inr (rs, e) ↦ elim (Option-cases (count (of_user user) s.reports)) [
            | inl f ↦ ground arith
            | inr (n, f) ↦
                let (all, same, down, cut) =
                  page_lem (wanted user q) by_creation (up_to q.limit) (up_to q.offset) s.reports
                    e in
                (
                  (all, same, down, ground (arith, cut)),
                  ground (arith, count_lem (of_user user) s.reports f),
                  ground arith,
                )
          ]
        ]

  -- A report is generated only for a device of the user's, with a title of 1 to 255 characters: it
  -- is the one row added, and it is pending.
  report_generate_lem :
      (user : String) (body : GenerateBody) (now : ℕ) (uuid : String) (s : Reports d1 r2)
      {r : Report}
      → (report_generate d1 r2 user body now uuid s).0 ≡ value (ok 201 r)
      → (generate_body body ≡ true)
        × ((x : DeviceInternal) × Mem x (rows s.devices)
            × (owned_device body.device_id user x ≡ true))
        × (rows (report_generate d1 r2 user body now uuid s).1.reports ≡ r ∷ rows s.reports)
        × (any (same_report r) (rows s.reports) ≡ false)
        × (r ≡ new_report body user now uuid)
  unfolding report_generate
  report_generate_lem user body now uuid s h =
      elim (Option-cases (select (owned_device body.device_id user) s.devices)) [
        | inl e ↦ ground arith
        | inr ([], e) ↦ ground arith
        | inr (x ∷ xs, e) ↦
            elim (Option-cases (insert same_report (new_report body user now uuid) s.reports)) [
              | inl f ↦ ground arith
              | inr (t, f) ↦
                  let found =
                    first_some (owned_device body.device_id user) (rows s.devices)
                      (select_lem (owned_device body.device_id user) s.devices e) refl in
                  let added = insert_lem same_report (new_report body user now uuid) s.reports f in
                  (
                    ground arith,
                    (x, found.0, found.1),
                    ground (arith, added),
                    ground (arith, added),
                    ground arith,
                  )
            ]
      ]

  -- A link to a file is shown only for a completed report of the user's that has one.
  pub report_read_lem :
      (user id : String) (s : Reports d1 r2) {out : ReportReply} {url : String}
      → (report_read d1 r2 user id s).0 ≡ value (ok 200 out)
      → out.download_url ≡ some url
      → Mem out.report (rows s.reports)
        × (owned_report id user out.report ≡ true)
        × (out.report.status ≡ completed)
        × (out.report.r2_key ≢ none)
  unfolding report_read
  report_read_lem user id s {out = out} h u =
      elim (Option-cases (select (owned_report id user) s.reports)) [
        | inl e ↦ ground arith
        | inr ([], e) ↦ ground arith
        | inr (x ∷ xs, e) ↦
            let found =
              first_some (owned_report id user) (rows s.reports)
                (select_lem (owned_report id user) s.reports e) refl in
            let same : x ≡ out.report = ground arith in
            (rw (← same) found.0, rw (← same) found.1, ground arith, λ gone. ground arith)
      ]
