-- ===== src/Ddns.antt =====
-- packages/schema/src/endpoints/ddns: one dynamic DNS configuration for a device, in the D1 table
-- `ddns_configs`, and the requests for an agent in the KV namespace CONFIGS.
pub mod Merging
pub mod Update
pub mod Force
pub mod Race
mod Tests
use Prim.Native.String.{◌++◌}
use ngfw_sh.Prelude.{
  ◌==◌, if◌then◌else◌, or_else, head?, ℕ, ◌+◌, ◌/◌, String, Bool, false, Option, none, some, List,
  [], ◌∷◌,
}
use ngfw_sh.Platform.Http.{Reply, M, ◌>>=◌, ◌>>◌, answer, refuse, await, execute, await_write}
use ngfw_sh.Platform.Database.{Database}
use ngfw_sh.Platform.Kv.{Kv}
use ngfw_sh.Fleet.{DeviceInternal, device, owned_device}

-- `ddnsProviders`.
pub data DdnsProvider : Type 0 where
  cloudflare duckdns noip dynu freedns : DdnsProvider

-- `ddnsConfig`: a row of the table.
pub record DdnsConfig : Type 0 where
  pub id : String
  pub device_id : String
  pub enabled : Bool
  pub provider : DdnsProvider
  pub hostname : String
  pub username : Option String
  pub password : Option String
  pub last_update : Option ℕ
  pub current_ip : Option String
  pub created_at : ℕ
  pub updated_at : ℕ

-- `ddnsConfigUpdateInput`: a missing field is `none`, and `null` is `some none`.
pub record DdnsConfigUpdateInput : Type 0 where
  pub enabled : Option Bool
  pub provider : Option DdnsProvider
  pub hostname : Option String
  pub username : Option (Option String)
  pub password : Option (Option String)

-- The SET clauses of the UPDATE.
unfoldable pub apply_updates : DdnsConfigUpdateInput → ℕ → DdnsConfig → DdnsConfig
apply_updates u now c = record c {
  enabled = or_else u.enabled c.enabled;
  provider = or_else u.provider c.provider;
  hostname = or_else u.hostname c.hostname;
  username = or_else u.username c.username;
  password = or_else u.password c.password;
  updated_at = now;
}

-- The VALUES of the INSERT.
unfoldable pub new_config : DdnsConfigUpdateInput → String → ℕ → String → DdnsConfig
new_config u device now uuid = record {
  id = uuid;
  device_id = device;
  enabled = or_else u.enabled false;
  provider = or_else u.provider cloudflare;
  hostname = or_else u.hostname "";
  username = or_else u.username none;
  password = or_else u.password none;
  last_update = none;
  current_ip = none;
  created_at = now;
  updated_at = now;
}

-- `WHERE device_id = ?`.
abbrev pub of_device : String → DdnsConfig → Bool
of_device device c = c.device_id == device

-- The primary key of the table.
abbrev pub same_config : DdnsConfig → DdnsConfig → Bool
same_config c d = c.id == d.id

-- What the agent is to pick up.
pub record UpdateRequest : Type 0 where
  pub device_id : String
  pub timestamp : ℕ
  pub action : String

pub record ForceReply : Type 0 where
  pub message : String
  pub timestamp : ℕ

abbrev pub update_key : String → String
update_key device = "ddns_update:" ++ device

abbrev pub force_request : String → ℕ → UpdateRequest
force_request device now = record { device_id = device; timestamp = now; action = "force_update" }

module _ (d1 : Database) (kv : Kv) where
  open d1 use {Table, select, insert, update}
  open kv use {Store, put}

  pub record Ddns : Type 0 where
    pub devices : Table DeviceInternal
    pub ddns_configs : Table DdnsConfig
    pub configs : Store UpdateRequest

  abbrev pub with_configs : Ddns → Option (Table DdnsConfig) → Option Ddns
  with_configs s none = none
  with_configs s (some t) = some (record s { ddns_configs = t })

  -- "Verify device ownership", then go on.
  abbrev pub on_device : {A : Type 0} → String → String → M Ddns (Reply A) → M Ddns (Reply A)
  on_device device user m = do
    found ← await (λ s. select (owned_device device user) s.devices)
    elim (head? found) [ none ↦ refuse 404 "Device not found" | some _ ↦ m ]

  unfoldable pub config_read : String → String → M Ddns (Reply (Option DdnsConfig))
  config_read user device =
      on_device device user
        do found ← await (λ s. select (of_device device) s.ddns_configs); answer 200 (head? found)

  -- "Check if configuration exists".
  abbrev pub existing : String → M Ddns (List DdnsConfig)
  existing device = await (λ s. select (of_device device) s.ddns_configs)

  -- The write that follows, by what the check found.
  unfoldable pub write_config :
      DdnsConfigUpdateInput → String → ℕ → String → List DdnsConfig → M Ddns (Unit {0})
  write_config u device now uuid [] =
      execute
        (λ s. with_configs s (insert same_config (new_config u device now uuid) s.ddns_configs))
  write_config u device now uuid (_ ∷ _) =
      execute (λ s. with_configs s (update (of_device device) (apply_updates u now) s.ddns_configs))

  -- `now` is `Date.now()`.
  unfoldable pub config_update :
      String → String → DdnsConfigUpdateInput → ℕ → String → M Ddns (Reply (Option DdnsConfig))
  config_update user device u now uuid = on_device device user do
    found ← existing device
    write_config u device (now / 1000) uuid found
    config ← existing device
    answer 200 (head? config)

  abbrev pub send_update : String → ℕ → Ddns → Ddns × Bool
  send_update device now s =
      let r = put (update_key device) (force_request device now, some (now + 300)) s.configs in
      (record s { configs = r.0 }, r.1)

  -- `now` is `Date.now()`.
  unfoldable pub force_update : String → String → ℕ → M Ddns (Reply ForceReply)
  force_update user device now = on_device device user do
    found ← existing device
    elim (head? found) [
      | none ↦ refuse 404 "DDNS not configured for this device"
      | some config ↦
          let send : M Ddns (Reply ForceReply) =
            await_write (send_update device (now / 1000))
            >> answer 200 (record {
              message = "DDNS update request sent to device";
              timestamp = now / 1000;
            }) in
          if config.enabled then send else refuse 400 "DDNS is disabled for this device"
    ]
