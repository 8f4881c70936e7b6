-- ===== src/Wifi/Networks.antt =====
-- packages/schema/src/endpoints/wifi/networksRead.ts and networksUpdate.ts.
use ngfw_sh.Prelude.{
  or_else, ℕ, ◌-◌, String, Bool, true, false, ◌&&◌, Option, none, some, List, [], ◌∷◌, map,
}
use ngfw_sh.Prelude.Text.{length}
use ngfw_sh.Platform.Http.{error, Reply, ok, refused}
use ngfw_sh.DeviceConfig.{all_in}
use ngfw_sh.Wifi.{ℤ, in_range, WifiSecurityMode, pos, open_mode, wpa3, wpa2_wpa3}

pub record WifiNetwork : Type 0 where
  pub id : ℤ
  pub radio_id : ℤ
  pub ssid : String
  pub enabled : Bool
  pub hidden : Bool
  pub security_mode : WifiSecurityMode
  pub password : Option String
  pub vlan_id : Option ℕ
  pub guest_network : Bool
  pub max_clients : ℕ
  pub created_at : ℕ
  pub updated_at : ℕ

-- An item of the body's `networks`. A nullable field that is missing and one that is null are `none` alike,
-- since the handler takes them so.
pub record NetworkUpdate : Type 0 where
  pub id : ℤ
  pub radio_id : Option ℤ
  pub ssid : Option String
  pub enabled : Option Bool
  pub hidden : Option Bool
  pub security_mode : Option WifiSecurityMode
  pub password : Option String
  pub vlan_id : Option ℕ
  pub guest_network : Option Bool
  pub max_clients : Option ℕ

unfoldable pub ssid_text : String → Bool
unfolding length
ssid_text s = in_range 1 32 (length s)

abbrev pub wifi_network : WifiNetwork → Bool
wifi_network n =
    ssid_text n.ssid && all_in (in_range 1 4094) n.vlan_id && in_range 1 250 n.max_clients

abbrev pub network_update : NetworkUpdate → Bool
network_update u =
    all_in ssid_text u.ssid
    && all_in (in_range 1 4094) u.vlan_id
    && all_in (in_range 1 250) u.max_clients

unfoldable pub wifi_networks_read : ℕ → Reply (List WifiNetwork)
wifi_networks_read now = ok 200 (
    record {
      id = pos 1;
      radio_id = pos 1;
      ssid = "MyNetwork";
      enabled = true;
      hidden = false;
      security_mode = wpa2_wpa3;
      password = some "securepassword123";
      vlan_id = none;
      guest_network = false;
      max_clients = 50;
      created_at = now - 86400000;
      updated_at = now;
    }
    ∷ record {
      id = pos 2;
      radio_id = pos 2;
      ssid = "MyNetwork-5G";
      enabled = true;
      hidden = false;
      security_mode = wpa3;
      password = some "securepassword123";
      vlan_id = none;
      guest_network = false;
      max_clients = 50;
      created_at = now - 86400000;
      updated_at = now;
    }
    ∷ record {
      id = pos 3;
      radio_id = pos 1;
      ssid = "Guest";
      enabled = true;
      hidden = false;
      security_mode = open_mode;
      password = none;
      vlan_id = some 100;
      guest_network = true;
      max_clients = 25;
      created_at = now - 172800000;
      updated_at = now;
    }
    ∷ [])

abbrev pub updated_network : ℕ → NetworkUpdate → WifiNetwork
updated_network now u = record {
  id = u.id;
  radio_id = or_else u.radio_id (pos 1);
  ssid = or_else u.ssid "MyNetwork";
  enabled = or_else u.enabled true;
  hidden = or_else u.hidden false;
  security_mode = or_else u.security_mode wpa2_wpa3;
  password = u.password;
  vlan_id = u.vlan_id;
  guest_network = or_else u.guest_network false;
  max_clients = or_else u.max_clients 50;
  created_at = now - 86400000;
  updated_at = now;
}

unfoldable pub wifi_networks_update : ℕ → List NetworkUpdate → Reply (List WifiNetwork)
wifi_networks_update now [] = refused 400 (error "No networks to update")
wifi_networks_update now (u ∷ us) = ok 200 (map (updated_network now) (u ∷ us))
