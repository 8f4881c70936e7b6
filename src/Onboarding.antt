-- ===== src/Onboarding.antt =====
-- packages/portal-astro/src/components/onboarding: the wizard by which a user chooses a router, configures
-- it and registers it as a device; and packages/schema/src/endpoints/onboarding, which lists the routers.
pub mod Texts
pub mod Form
pub mod Flow
pub mod Soundness
pub mod Complete
pub mod Routers
pub mod Selector
mod Tests
use ngfw_sh.Prelude.{ℕ, String, Bool, Option, List}

pub record RouterSpec : Type 0 where
  pub cpu : String
  pub ram : String
  pub storage : String
  pub wan_ports : String
  pub lan_ports : String
  pub wifi : String
  pub max_devices : ℕ

pub record RouterOption : Type 0 where
  pub id : String
  pub name : String
  pub manufacturer : String
  pub firmware : String
  pub price : ℕ
  pub specs : RouterSpec
  pub features : List String
  pub image : String
  pub recommended : Option Bool
  pub in_stock : Bool

pub record ShippingAddress : Type 0 where
  pub full_name : String
  pub address_line1 : String
  pub address_line2 : Option String
  pub city : String
  pub state : String
  pub zip_code : String
  pub country : String
  pub phone_number : String

pub record WifiConfig : Type 0 where
  pub ssid : String
  pub password : String
  pub hide_ssid : Bool

pub data WanType : Type 0 where
  dhcp static pppoe lte : WanType

pub record OnboardingWanConfig : Type 0 where
  pub username : Option String
  pub password : Option String
  pub ip_address : Option String
  pub subnet : Option String
  pub gateway : Option String
  pub dns1 : Option String
  pub dns2 : Option String

pub data SecurityPreset : Type 0 where
  standard strict custom : SecurityPreset

pub record OnboardingConfig : Type 0 where
  pub device_name : String
  pub shipping_address : ShippingAddress
  pub wifi_config : WifiConfig
  pub wan_type : WanType
  pub wan_config : Option OnboardingWanConfig
  pub admin_password : String
  pub admin_password_confirm : Option String
  pub security_preset : SecurityPreset
  pub enable_ips : Bool
  pub enable_dns_filter : Bool
  pub enable_auto_updates : Bool
