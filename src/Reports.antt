-- ===== src/Reports.antt =====
-- packages/schema/src/endpoints/reports: the reports of a user's devices in the D1 table `reports`,
-- with their files in the R2 bucket REPORTS. A time is the number that its ISO text stands for.
pub mod Files
pub mod Answers
mod Tests
use Prim.Native.String.{◌++◌}
use ngfw_sh.Prelude.{
  leb, ◌==◌, if◌then◌else◌, truthy, head?, ℕ, String, Bool, true, false, ◌&&◌, Option, none, some,
  List,
}
use ngfw_sh.Prelude.Text
use ngfw_sh.Platform.Http.{
  Reply, M, ◌>>=◌, ◌>>◌, answer, refuse_errors, await, validated, execute, await_write, value,
}
use ngfw_sh.Platform.Database.{Database, up_to}
use ngfw_sh.Platform.Bucket.{Bucket}
use ngfw_sh.Fleet.{DeviceInternal, owned_device}

-- `reportType`, `reportFormat` and `reportStatus`.
pub data ReportType : Type 0 where
  security traffic bandwidth firewall vpn dns of_device system : ReportType

pub data ReportFormat : Type 0 where
  pdf csv json : ReportFormat

pub data ReportStatus : Type 0 where
  pending generating completed failed : ReportStatus

-- `report`: a row of the table.
pub record Report : Type 0 where
  pub id : String
  pub device_id : String
  pub owner_id : String
  pub type : ReportType
  pub format : ReportFormat
  pub status : ReportStatus
  pub title : String
  pub date_start : ℕ
  pub date_end : ℕ
  pub r2_key : Option String
  pub file_size : Option ℕ
  pub created_at : ℕ
  pub completed_at : Option ℕ
  pub error_message : Option String

-- `generateBody`.
pub record GenerateBody : Type 0 where
  pub device_id : String
  pub type : ReportType
  pub format : ReportFormat
  pub title : String
  pub date_start : ℕ
  pub date_end : ℕ

unfoldable pub generate_body : GenerateBody → Bool
unfolding Text.length
generate_body b = leb 1 (Text.length b.title) && leb (Text.length b.title) 255

unfoldable pub new_report : GenerateBody → String → ℕ → String → Report
new_report b user now uuid = record {
  id = uuid;
  device_id = b.device_id;
  owner_id = user;
  type = b.type;
  format = b.format;
  status = pending;
  title = b.title;
  date_start = b.date_start;
  date_end = b.date_end;
  r2_key = none;
  file_size = none;
  created_at = now;
  completed_at = none;
  error_message = none;
}

-- `WHERE id = ? AND owner_id = ?`, and the primary key.
abbrev pub owned_report : String → String → Report → Bool
owned_report id user r = r.id == id && r.owner_id == user

abbrev pub same_report : Report → Report → Bool
same_report r x = r.id == x.id

pub record ReportReply : Type 0 where
  pub report : Report
  pub download_url : Option String

abbrev is_completed : ReportStatus → Bool
is_completed completed = true
is_completed _ = false

-- `downloadUrl`.
unfoldable pub download_url : Report → Option String
download_url r = elim (truthy r.r2_key) [
  | none ↦ none
  | some key ↦ if is_completed r.status then some ("https://reports.ngfw.sh/" ++ key) else none
]

-- The query of a list, whose texts are compared with a row's; `show` writes a type or a status.
pub record ReportQuery : Type 0 where
  pub device_id : Option String
  pub type : Option String
  pub status : Option String
  pub limit : ℕ
  pub offset : ℕ

pub record ReportPage : Type 0 where
  pub result : List Report
  pub total : ℕ

-- A clause of the query stands only for a text that is given and not empty.
abbrev pub clause : Option String → String → Bool
clause wanted actual = elim (truthy wanted) [ none ↦ true | some w ↦ actual == w ]

abbrev pub type_text : ReportType → String
type_text security = "security"
type_text traffic = "traffic"
type_text bandwidth = "bandwidth"
type_text firewall = "firewall"
type_text vpn = "vpn"
type_text dns = "dns"
type_text of_device = "device"
type_text system = "system"

abbrev pub status_text : ReportStatus → String
status_text pending = "pending"
status_text generating = "generating"
status_text completed = "completed"
status_text failed = "failed"

abbrev pub of_user : String → Report → Bool
of_user user r = r.owner_id == user

abbrev pub wanted : String → ReportQuery → Report → Bool
wanted user q r =
    of_user user r
    && clause q.device_id r.device_id
    && clause q.type (type_text r.type)
    && clause q.status (status_text r.status)

-- `z.coerce.number().int().min(1).max(100)`.
unfoldable pub valid_query : ReportQuery → Bool
valid_query q = leb 1 q.limit && leb q.limit 100

abbrev pub by_creation : Report → ℕ × ℕ
by_creation r = (r.created_at, 0)

module _ (d1 : Database) (r2 : Bucket) where
  open d1 use {Table, select, insert, delete, count, page}

  pub record Reports : Type 0 where
    pub devices : Table DeviceInternal
    pub reports : Table Report
    pub files : r2.Store

  abbrev pub with_reports : Reports → Option (Table Report) → Option Reports
  with_reports s none = none
  with_reports s (some t) = some (record s { reports = t })

  abbrev pub delete_file : String → Reports → Reports × Bool
  delete_file key s = let r = r2.delete key s.files in (record s { files = r.0 }, r.1)

  unfoldable pub report_generate : String → GenerateBody → ℕ → String → M Reports (Reply Report)
  unfolding generate_body new_report
  report_generate user body now uuid = validated (generate_body body) do
    found ← await (λ s. select (owned_device body.device_id user) s.devices)
    elim (head? found) [
      | none ↦ refuse_errors 404 "Device not found or access denied"
      | some _ ↦ do
        execute (λ s. with_reports s (insert same_report (new_report body user now uuid) s.reports))
        answer 201 (new_report body user now uuid)
    ]

  unfoldable pub report_read : String → String → M Reports (Reply ReportReply)
  unfolding download_url
  report_read user id = do
    found ← await (λ s. select (owned_report id user) s.reports)
    elim (head? found) [
      | none ↦ refuse_errors 404 "Report not found"
      | some r ↦ answer 200 (record { report = r; download_url = download_url r })
    ]

  -- The file goes before the row.
  abbrev pub remove_file : Option String → M Reports (Unit {0})
  remove_file none s = (value tt, s)
  remove_file (some key) s = await_write (delete_file key) s

  unfoldable pub report_delete : String → String → M Reports (Reply (Unit {0}))
  report_delete user id = do
    found ← await (λ s. select (owned_report id user) s.reports)
    elim (head? found) [
      | none ↦ refuse_errors 404 "Report not found"
      | some r ↦ do
        remove_file (truthy r.r2_key)
        execute (λ s. with_reports s (delete (owned_report id user) s.reports))
        answer 200 tt
    ]

  unfoldable pub report_list : String → ReportQuery → M Reports (Reply ReportPage)
  unfolding valid_query
  report_list user q = validated (valid_query q) do
    found ← await (λ s. page (wanted user q) by_creation (up_to q.limit) (up_to q.offset) s.reports)
    total ← await (λ s. count (of_user user) s.reports)
    answer 200 (record { result = found; total = total })
