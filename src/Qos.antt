-- ===== src/Qos.antt =====
-- packages/schema/src/endpoints/qos: the global traffic shaping configuration, row 1 of the D1
-- table `qos_config`.
pub mod Rewriting
pub mod Laws
mod Tests
use ngfw_sh.Prelude.{
  eqb, if◌then◌else◌, or_else, head?, ℕ, ◌/◌, Bool, true, false, not, ◌&&◌, Option, none, some,
}
use ngfw_sh.Platform.Http.{Reply, M, ◌>>=◌, ◌>>◌, answer, refuse, await, execute}
use ngfw_sh.Platform.Database.{Database}

-- `qosAlgorithm`.
pub data QosAlgorithm : Type 0 where
  fq_codel cake htb : QosAlgorithm

-- A row of the table, where `enabled` is 0 or 1.
pub record QosRow : Type 0 where
  pub id : ℕ
  pub enabled : ℕ
  pub algorithm : QosAlgorithm
  pub wan_upload_kbps : ℕ
  pub wan_download_kbps : ℕ
  pub updated_at : ℕ

-- `qosConfig`.
pub record QosConfig : Type 0 where
  pub id : ℕ
  pub enabled : Bool
  pub algorithm : QosAlgorithm
  pub wan_upload_kbps : ℕ
  pub wan_download_kbps : ℕ
  pub updated_at : ℕ

-- `{...row, enabled: Boolean(row.enabled)}`.
unfoldable pub qos_config : QosRow → QosConfig
qos_config r = record {
  id = r.id;
  enabled = not (eqb r.enabled 0);
  algorithm = r.algorithm;
  wan_upload_kbps = r.wan_upload_kbps;
  wan_download_kbps = r.wan_download_kbps;
  updated_at = r.updated_at;
}

-- `updateFields`.
pub record UpdateFields : Type 0 where
  pub enabled : Option Bool
  pub algorithm : Option QosAlgorithm
  pub wan_upload_kbps : Option ℕ
  pub wan_download_kbps : Option ℕ

abbrev pub missing {ℓ} : {A : Type ℓ} → Option A → Bool
missing none = true
missing (some a) = false

-- `Object.keys(updates).length === 0`.
unfoldable pub no_fields : UpdateFields → Bool
no_fields u =
    missing u.enabled
    && missing u.algorithm
    && missing u.wan_upload_kbps
    && missing u.wan_download_kbps

-- `b ? 1 : 0`.
abbrev pub bit : Bool → ℕ
bit true = 1
bit false = 0

abbrev pub bit_or_else : Option Bool → ℕ → ℕ
bit_or_else none n = n
bit_or_else (some b) n = bit b

-- The SET clauses.
unfoldable pub set_clauses : UpdateFields → ℕ → QosRow → QosRow
set_clauses u now r = record r {
  enabled = bit_or_else u.enabled r.enabled;
  algorithm = or_else u.algorithm r.algorithm;
  wan_upload_kbps = or_else u.wan_upload_kbps r.wan_upload_kbps;
  wan_download_kbps = or_else u.wan_download_kbps r.wan_download_kbps;
  updated_at = now;
}

-- `WHERE id = 1`.
abbrev pub the_row : QosRow → Bool
the_row r = eqb r.id 1

module _ (d1 : Database) where
  open d1 use {Table, select, update}

  unfoldable pub config_read : M (Table QosRow) (Reply QosConfig)
  unfolding qos_config
  config_read = do
    found ← await (select the_row)
    elim (head? found) [
      | none ↦ refuse 404 "QoS configuration not found"
      | some row ↦ answer 200 (qos_config row)
    ]

  -- `now` is `Date.now()`.
  unfoldable pub config_update : UpdateFields → ℕ → M (Table QosRow) (Reply QosConfig)
  unfolding qos_config set_clauses no_fields
  config_update u now =
      let write : M (Table QosRow) (Reply QosConfig) = do
        execute (update the_row (set_clauses u (now / 1000)))
        found ← await (select the_row)
        elim (head? found) [
          | none ↦ refuse 500 "QoS configuration not found after update"
          | some row ↦ answer 200 (qos_config row)
        ]
      in if no_fields u then refuse 400 "No fields to update" else write
