-- ===== src/Ddns/Merging.antt =====
-- What an update of a configuration is to make of a device's rows: packages/schema/src/endpoints/ddns.
use ngfw_sh.Prelude.{Takes, Takes-or_else, ℕ, String, ◌≡◌, refl, false, none, List, [], ◌∷◌, map}
use ngfw_sh.Prelude.Pairs.{Pairwise}
use ngfw_sh.Ddns.{cloudflare, DdnsConfig, DdnsConfigUpdateInput, apply_updates, new_config}

-- A device's configurations after an update, by what they were.
abbrev pub merged : DdnsConfigUpdateInput → String → ℕ → String → List DdnsConfig → List DdnsConfig
merged u device now uuid [] = new_config u device now uuid ∷ []
merged u device now uuid (c ∷ cs) = map (apply_updates u now) (c ∷ cs)

-- A row after an update that finds it: each given field is as given, and all else but the time stays.
pub record IsMerged (u : DdnsConfigUpdateInput) (now : ℕ) (old new : DdnsConfig) : Type 0 where
  pub id : new.id ≡ old.id
  pub device_id : new.device_id ≡ old.device_id
  pub enabled : Takes u.enabled old.enabled new.enabled
  pub provider : Takes u.provider old.provider new.provider
  pub hostname : Takes u.hostname old.hostname new.hostname
  pub username : Takes u.username old.username new.username
  pub password : Takes u.password old.password new.password
  pub last_update : new.last_update ≡ old.last_update
  pub current_ip : new.current_ip ≡ old.current_ip
  pub created_at : new.created_at ≡ old.created_at
  pub updated_at : new.updated_at ≡ now

-- A row that an update makes: each field that was not given has its default.
pub record IsNew (u : DdnsConfigUpdateInput) (device : String) (now : ℕ) (uuid : String)
    (new : DdnsConfig) : Type 0 where
  pub id : new.id ≡ uuid
  pub device_id : new.device_id ≡ device
  pub enabled : Takes u.enabled false new.enabled
  pub provider : Takes u.provider cloudflare new.provider
  pub hostname : Takes u.hostname "" new.hostname
  pub username : Takes u.username none new.username
  pub password : Takes u.password none new.password
  pub last_update : new.last_update ≡ none
  pub current_ip : new.current_ip ≡ none
  pub created_at : new.created_at ≡ now
  pub updated_at : new.updated_at ≡ now

-- A device's configurations before and after: one new row where there was none, and otherwise the same
-- rows, each merged with the update.
abbrev pub Merges :
    DdnsConfigUpdateInput → String → ℕ → String → List DdnsConfig → List DdnsConfig → Type 0
Merges u device now uuid [] [] = ⊥
Merges u device now uuid [] (c ∷ []) = IsNew u device now uuid c
Merges u device now uuid [] (c ∷ d ∷ cs) = ⊥
Merges u device now uuid (o ∷ os) cs = Pairwise (IsMerged u now) (o ∷ os) cs

apply_updates-IsMerged :
    (u : DdnsConfigUpdateInput) (now : ℕ) (c : DdnsConfig)
    → IsMerged u now c (apply_updates u now c)
unfolding apply_updates
apply_updates-IsMerged u now c = record {
  id = refl;
  device_id = refl;
  enabled = Takes-or_else u.enabled c.enabled;
  provider = Takes-or_else u.provider c.provider;
  hostname = Takes-or_else u.hostname c.hostname;
  username = Takes-or_else u.username c.username;
  password = Takes-or_else u.password c.password;
  last_update = refl;
  current_ip = refl;
  created_at = refl;
  updated_at = refl;
}

new_config-IsNew :
    (u : DdnsConfigUpdateInput) (device : String) (now : ℕ) (uuid : String)
    → IsNew u device now uuid (new_config u device now uuid)
unfolding new_config
new_config-IsNew u device now uuid = record {
  id = refl;
  device_id = refl;
  enabled = Takes-or_else u.enabled false;
  provider = Takes-or_else u.provider cloudflare;
  hostname = Takes-or_else u.hostname "";
  username = Takes-or_else u.username none;
  password = Takes-or_else u.password none;
  last_update = refl;
  current_ip = refl;
  created_at = refl;
  updated_at = refl;
}

map-IsMerged :
    (u : DdnsConfigUpdateInput) (now : ℕ) (cs : List DdnsConfig)
    → Pairwise (IsMerged u now) cs (map (apply_updates u now) cs)
map-IsMerged u now [] = tt
map-IsMerged u now (c ∷ cs) = (apply_updates-IsMerged u now c, map-IsMerged u now cs)

pub Merges-merged :
    (u : DdnsConfigUpdateInput) (device : String) (now : ℕ) (uuid : String) (cs : List DdnsConfig)
    → Merges u device now uuid cs (merged u device now uuid cs)
Merges-merged u device now uuid [] = new_config-IsNew u device now uuid
Merges-merged u device now uuid (c ∷ cs) = map-IsMerged u now (c ∷ cs)
