-- ===== src/Ips.antt =====
-- packages/schema/src/endpoints/ips: the custom rules and the alerts of the intrusion prevention,
-- in the D1 tables `ips_rules` and `ips_alerts`.
pub mod Settings
pub mod Categories
pub mod Rules
pub mod Alerts
mod Tests
use ngfw_sh.Prelude.{
  leb, eqb, ◌==◌, if◌then◌else◌, or_else, truthy, head?, ℕ, ◌/◌, String, Bool, true, false, not,
  ◌&&◌, Option, none, some, List, map,
}
use ngfw_sh.Platform.Http.{
  Reply, Outcome, M, ◌>>=◌, ◌>>◌, answer, refuse, await, validated, execute, other, value, thrown,
}
use ngfw_sh.Platform.Database.{Bound, Database, up_to, below_zero}

-- A row of `ips_rules`, where `enabled` is 0 or 1.
pub record IpsRuleRow : Type 0 where
  pub id : ℕ
  pub owner_id : String
  pub name : String
  pub description : Option String
  pub enabled : ℕ
  pub rule : String
  pub category : Option String
  pub priority : ℕ
  pub created_at : ℕ
  pub updated_at : ℕ

-- `ipsRule`, with the owner that the spread of the row adds.
pub record IpsRule : Type 0 where
  pub id : ℕ
  pub owner_id : String
  pub name : String
  pub description : Option String
  pub enabled : Bool
  pub rule : String
  pub category : Option String
  pub priority : ℕ
  pub created_at : ℕ
  pub updated_at : ℕ

-- `{...row, enabled: Boolean(row.enabled)}`.
unfoldable pub ips_rule : IpsRuleRow → IpsRule
ips_rule r = record {
  id = r.id;
  owner_id = r.owner_id;
  name = r.name;
  description = r.description;
  enabled = not (eqb r.enabled 0);
  rule = r.rule;
  category = r.category;
  priority = r.priority;
  created_at = r.created_at;
  updated_at = r.updated_at;
}

-- `createFields`.
pub record CreateFields : Type 0 where
  pub name : String
  pub description : Option String
  pub enabled : Bool
  pub rule : String
  pub category : Option String
  pub priority : Option ℕ

unfoldable pub create_fields : CreateFields → Bool
create_fields b = elim b.priority [ none ↦ true | some n ↦ leb 1 n && leb n 10 ]

-- `b ? 1 : 0`.
abbrev pub bit : Bool → ℕ
bit true = 1
bit false = 0

-- `n || d`.
abbrev nonzero_or_else : Option ℕ → ℕ → ℕ
nonzero_or_else none d = d
nonzero_or_else (some n) d = if eqb n 0 then d else n

-- The VALUES of the INSERT.
unfoldable pub new_rule : String → CreateFields → ℕ → ℕ → IpsRuleRow
new_rule user b now id = record {
  id = id;
  owner_id = user;
  name = b.name;
  description = truthy b.description;
  enabled = bit b.enabled;
  rule = b.rule;
  category = truthy b.category;
  priority = nonzero_or_else b.priority 5;
  created_at = now;
  updated_at = now;
}

abbrev pub rule_id : IpsRuleRow → ℕ
rule_id r = r.id

-- `WHERE id = ?` and `WHERE id = ? AND owner_id = ?`. The id of a request is `Number` of its text,
-- and `none` where that is no natural number, which no row has.
abbrev pub numbered : ℕ → IpsRuleRow → Bool
numbered id r = eqb r.id id

abbrev pub owned_rule : Option ℕ → String → IpsRuleRow → Bool
owned_rule none user r = false
owned_rule (some id) user r = eqb r.id id && r.owner_id == user

-- The query of a list of rules.
pub record RuleQuery : Type 0 where
  pub category : Option String
  pub enabled : Option String

-- `if (x) { query += " AND x = ?"; }` on a column that may be NULL.
abbrev pub clause : Option String → Option String → Bool
clause wanted actual = elim (truthy wanted) [
  | none ↦ true
  | some w ↦ elim actual [ none ↦ false | some a ↦ a == w ]
]

abbrev pub enabled_clause : Option String → ℕ → Bool
enabled_clause none actual = true
enabled_clause (some w) actual = eqb actual (bit (w == "true"))

abbrev pub wanted_rule : String → RuleQuery → IpsRuleRow → Bool
wanted_rule user q r =
    r.owner_id == user && clause q.category r.category && enabled_clause q.enabled r.enabled

-- `ORDER BY priority DESC, id DESC`.
abbrev pub by_priority : IpsRuleRow → ℕ × ℕ
by_priority r = (r.priority, r.id)

-- `alertSeverityEnum`.
pub data AlertSeverity : Type 0 where
  low medium high critical : AlertSeverity

-- `ipsAlert`: a row of `ips_alerts`.
pub record IpsAlert : Type 0 where
  pub id : ℕ
  pub owner_id : String
  pub timestamp : ℕ
  pub signature_id : ℕ
  pub signature_name : String
  pub category : String
  pub severity : AlertSeverity
  pub protocol : String
  pub src_ip : String
  pub src_port : Option ℕ
  pub dst_ip : String
  pub dst_port : Option ℕ
  pub action : String
  pub payload : Option String

abbrev pub severity_text : AlertSeverity → String
severity_text low = "low"
severity_text medium = "medium"
severity_text high = "high"
severity_text critical = "critical"

-- The query of a list of alerts, where a limit and an offset are whole numbers: a text that Number reads
-- as NaN or as a fraction, which the schema lets pass, is left out.
pub record AlertQuery : Type 0 where
  pub category : Option String
  pub severity : Option AlertSeverity
  pub src_ip : Option String
  pub dst_ip : Option String
  pub limit : Option Bound
  pub offset : Option Bound

abbrev pub wanted_alert : String → AlertQuery → IpsAlert → Bool
wanted_alert user q a =
    a.owner_id == user
    && clause q.category (some a.category)
    && elim q.severity [ none ↦ true | some w ↦ severity_text a.severity == severity_text w ]
    && clause q.src_ip (some a.src_ip)
    && clause q.dst_ip (some a.dst_ip)

abbrev pub by_time : IpsAlert → ℕ × ℕ
by_time a = (a.timestamp, 0)

-- `Math.min(limit, 500)`.
abbrev pub min_500 : Bound → Bound
min_500 (up_to n) = up_to (if leb n 500 then n else 500)
min_500 below_zero = below_zero

pub record AlertPage : Type 0 where
  pub alerts : List IpsAlert
  pub total : ℕ
  pub limit : Bound
  pub offset : Bound

module _ (d1 : Database) where
  open d1 use {Table, select, delete, insert_next, count, page}

  abbrev inserted : {R : Type 0} → Table R → Option (Table R × ℕ) → Outcome ℕ × Table R
  inserted t none = (thrown other, t)
  inserted t (some (t', id)) = (value id, t')

  -- The INSERT, and `result.meta.last_row_id`.
  abbrev pub insert_rule : (ℕ → IpsRuleRow) → M (Table IpsRuleRow) ℕ
  insert_rule f t = inserted t (insert_next rule_id f t)

  -- `now` is `Date.now()`. The answer is `none` where it holds `enabled: false` alone.
  unfoldable pub rule_create :
      String → CreateFields → ℕ → M (Table IpsRuleRow) (Reply (Option IpsRule))
  unfolding create_fields new_rule ips_rule
  rule_create user body now = validated (create_fields body) do
    id ← insert_rule (new_rule user body (now / 1000))
    created ← await (select (numbered id))
    answer 201 (elim (head? created) [ none ↦ none | some r ↦ some (ips_rule r) ])

  unfoldable pub rule_delete : String → Option ℕ → M (Table IpsRuleRow) (Reply (Unit {0}))
  rule_delete user id = do
    existing ← await (select (owned_rule id user))
    elim (head? existing) [
      | none ↦ refuse 404 "Rule not found"
      | some _ ↦ do execute (delete (owned_rule id user)); answer 200 tt
    ]

  unfoldable pub rule_list : String → RuleQuery → M (Table IpsRuleRow) (Reply (List IpsRule))
  unfolding ips_rule
  rule_list user q = do
    rows ← await (page (wanted_rule user q) by_priority below_zero (up_to 0))
    answer 200 (map ips_rule rows)

  unfoldable pub alert_list : String → AlertQuery → M (Table IpsAlert) (Reply AlertPage)
  alert_list user q = do
    let limit = or_else q.limit (up_to 50)
    let offset = or_else q.offset (up_to 0)
    total ← await (count (wanted_alert user q))
    alerts ← await (page (wanted_alert user q) by_time (min_500 limit) offset)
    answer 200 (record { alerts = alerts; total = total; limit = min_500 limit; offset = offset })
