-- ===== src/Ips/Settings.antt =====
-- packages/schema/src/endpoints/ips: a user's configuration of the intrusion prevention, as
-- a JSON text in the KV namespace CONFIGS. `now` is `Date.now()`.
pub mod Config
use Prim.Native.String.{◌++◌}
use ngfw_sh.Prelude.{
  leb, or_else, truthy, ℕ, ◌/◌, String, Bool, true, false, ◌&&◌, Option, none, some, List, [], ◌∷◌,
}
use ngfw_sh.Platform.Http.{Reply, M, ◌>>=◌, ◌>>◌, answer, await, validated, await_write}
use ngfw_sh.Platform.Kv.{Kv}

-- `ipsModeEnum`.
pub data IpsMode : Type 0 where
  disabled detect prevent : IpsMode

-- `ipsConfig`.
pub record IpsConfig : Type 0 where
  pub enabled : Bool
  pub mode : IpsMode
  pub home_networks : List String
  pub external_networks : List String
  pub excluded_networks : Option (List String)
  pub max_pending_packets : Option ℕ
  pub update_interval : Option ℕ
  pub last_update : Option ℕ

-- `updateFields`.
pub record UpdateFields : Type 0 where
  pub enabled : Option Bool
  pub mode : Option IpsMode
  pub home_networks : Option (List String)
  pub external_networks : Option (List String)
  pub excluded_networks : Option (List String)
  pub max_pending_packets : Option ℕ
  pub update_interval : Option ℕ

abbrev within : ℕ → ℕ → Option ℕ → Bool
within lowest highest none = true
within lowest highest (some n) = leb lowest n && leb n highest

unfoldable pub update_fields : UpdateFields → Bool
update_fields u = within 1 65535 u.max_pending_packets && within 3600 604800 u.update_interval

-- The bounds that `ipsConfig` sets.
unfoldable pub valid_config : IpsConfig → Bool
valid_config c = within 1 65535 c.max_pending_packets && within 3600 604800 c.update_interval

abbrev pub default_config : IpsConfig
default_config = record {
  enabled = false;
  mode = detect;
  home_networks = "192.168.0.0/16" ∷ "10.0.0.0/8" ∷ "172.16.0.0/12" ∷ [];
  external_networks = "!192.168.0.0/16" ∷ "!10.0.0.0/8" ∷ "!172.16.0.0/12" ∷ [];
  excluded_networks = some [];
  max_pending_packets = some 1024;
  update_interval = some 86400;
  last_update = none;
}

abbrev given {ℓ} : {A : Type ℓ} → Option A → Option A → Option A
given none old = old
given (some a) old = some a

-- `{...current, ...updates, last_update}`.
unfoldable pub spread : UpdateFields → ℕ → IpsConfig → IpsConfig
spread u now c = record {
  enabled = or_else u.enabled c.enabled;
  mode = or_else u.mode c.mode;
  home_networks = or_else u.home_networks c.home_networks;
  external_networks = or_else u.external_networks c.external_networks;
  excluded_networks = given u.excluded_networks c.excluded_networks;
  max_pending_packets = given u.max_pending_packets c.max_pending_packets;
  update_interval = given u.update_interval c.update_interval;
  last_update = some now;
}

abbrev pub config_key : String → String
config_key user = "ips_config:" ++ user

-- `JSON.parse` and `JSON.stringify`.
pub record Json (A : Type 0) : Type 0 where
  pub parse : String → Option A
  pub stringify : A → String

-- `raw ? JSON.parse(raw) : d`.
unfoldable pub parsed_or_else : {A : Type 0} → Json A → A → Option String → Option A
parsed_or_else json d raw = elim (truthy raw) [ none ↦ some d | some text ↦ json.parse text ]

module _ (kv : Kv) (json : Json IpsConfig) where
  open kv use {Store, get, put}

  unfoldable pub config_read : String → ℕ → M (Store String) (Reply IpsConfig)
  unfolding parsed_or_else
  config_read user now = do
    raw ← await (get (config_key user) (now / 1000))
    config ← await (λ s. parsed_or_else json default_config raw)
    answer 200 config

  unfoldable pub config_update : String → UpdateFields → ℕ → M (Store String) (Reply IpsConfig)
  unfolding parsed_or_else update_fields spread
  config_update user u now = validated (update_fields u) do
    raw ← await (get (config_key user) (now / 1000))
    current ← await (λ s. parsed_or_else json default_config raw)
    await_write (put (config_key user) (json.stringify (spread u (now / 1000) current), none))
    answer 200 (spread u (now / 1000) current)
