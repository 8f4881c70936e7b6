-- ===== src/DeviceConfig/Wan.antt =====
-- packages/schema/src/endpoints/wan: the handlers that read and update the WAN configuration. They answer
-- constants in place of a device's configuration. Numbers are those that a schema lets through: whole and not negative.
use ngfw_sh.Prelude.{
  leb, if◌then◌else◌, or_else, ℕ, String, Bool, true, false, ◌&&◌, Option, none, some,
}
use ngfw_sh.Platform.Http.{error, Reply, ok, refused}
use ngfw_sh.DeviceConfig.{is_missing, or_default, all_in}

pub data WanConnectionType : Type 0 where
  dhcp static pppoe lte : WanConnectionType

pub record WanConfig : Type 0 where
  pub id : ℕ
  pub interface : String
  pub connection_type : WanConnectionType
  pub enabled : Bool
  pub ipv4_address : Option String
  pub ipv4_netmask : Option String
  pub ipv4_gateway : Option String
  pub ipv6_enabled : Bool
  pub ipv6_address : Option String
  pub ipv6_prefix_length : Option ℕ
  pub ipv6_gateway : Option String
  pub dns_primary : Option String
  pub dns_secondary : Option String
  pub mtu : ℕ
  pub pppoe_username : Option String
  pub pppoe_password : Option String
  pub updated_at : ℕ

-- `updateFields`.
pub record WanUpdates : Type 0 where
  pub interface : Option String
  pub connection_type : Option WanConnectionType
  pub enabled : Option Bool
  pub ipv4_address : Option (Option String)
  pub ipv4_netmask : Option (Option String)
  pub ipv4_gateway : Option (Option String)
  pub ipv6_enabled : Option Bool
  pub ipv6_address : Option (Option String)
  pub ipv6_prefix_length : Option (Option ℕ)
  pub ipv6_gateway : Option (Option String)
  pub dns_primary : Option (Option String)
  pub dns_secondary : Option (Option String)
  pub mtu : Option ℕ
  pub pppoe_username : Option (Option String)
  pub pppoe_password : Option (Option String)

abbrev pub wan_no_fields : WanUpdates → Bool
wan_no_fields u =
    is_missing u.interface
    && is_missing u.connection_type
    && is_missing u.enabled
    && is_missing u.ipv4_address
    && is_missing u.ipv4_netmask
    && is_missing u.ipv4_gateway
    && is_missing u.ipv6_enabled
    && is_missing u.ipv6_address
    && is_missing u.ipv6_prefix_length
    && is_missing u.ipv6_gateway
    && is_missing u.dns_primary
    && is_missing u.dns_secondary
    && is_missing u.mtu
    && is_missing u.pppoe_username
    && is_missing u.pppoe_password

-- `wanConfig`.
abbrev pub wan_valid_config : WanConfig → Bool
wan_valid_config s =
    all_in (λ n. leb n 128) s.ipv6_prefix_length && (leb 576 s.mtu && leb s.mtu 9000)

abbrev pub wan_valid_updates : WanUpdates → Bool
wan_valid_updates u =
    all_in (all_in (λ n. leb n 128)) u.ipv6_prefix_length
    && all_in (λ n. leb 576 n && leb n 9000) u.mtu

unfoldable pub wan_config_read : ℕ → Reply WanConfig
wan_config_read now = ok 200 record {
  id = 1;
  interface = "eth0";
  connection_type = dhcp;
  enabled = true;
  ipv4_address = some "203.0.113.10";
  ipv4_netmask = some "255.255.255.0";
  ipv4_gateway = some "203.0.113.1";
  ipv6_enabled = false;
  ipv6_address = none;
  ipv6_prefix_length = none;
  ipv6_gateway = none;
  dns_primary = some "8.8.8.8";
  dns_secondary = some "8.8.4.4";
  mtu = 1500;
  pppoe_username = none;
  pppoe_password = none;
  updated_at = now;
}

abbrev pub wan_mock : ℕ → WanUpdates → WanConfig
wan_mock now u = record {
  id = 1;
  interface = or_else u.interface "eth0";
  connection_type = or_else u.connection_type dhcp;
  enabled = or_else u.enabled true;
  ipv4_address = or_default u.ipv4_address (some "203.0.113.10");
  ipv4_netmask = or_default u.ipv4_netmask (some "255.255.255.0");
  ipv4_gateway = or_default u.ipv4_gateway (some "203.0.113.1");
  ipv6_enabled = or_else u.ipv6_enabled false;
  ipv6_address = or_default u.ipv6_address none;
  ipv6_prefix_length = or_default u.ipv6_prefix_length none;
  ipv6_gateway = or_default u.ipv6_gateway none;
  dns_primary = or_default u.dns_primary (some "8.8.8.8");
  dns_secondary = or_default u.dns_secondary (some "8.8.4.4");
  mtu = or_else u.mtu 1500;
  pppoe_username = or_default u.pppoe_username none;
  pppoe_password = or_default u.pppoe_password none;
  updated_at = now;
}

-- After the validation of the body.
unfoldable pub wan_config_update : ℕ → WanUpdates → Reply WanConfig
wan_config_update now u =
    if wan_no_fields u then refused 400 (error "No fields to update") else ok 200 (wan_mock now u)

-- A configuration with the fields over it that are given and not null.
abbrev pub wan_over : WanUpdates → WanConfig → WanConfig
wan_over u s = record s {
  interface = or_else u.interface s.interface;
  connection_type = or_else u.connection_type s.connection_type;
  enabled = or_else u.enabled s.enabled;
  ipv4_address = or_default u.ipv4_address s.ipv4_address;
  ipv4_netmask = or_default u.ipv4_netmask s.ipv4_netmask;
  ipv4_gateway = or_default u.ipv4_gateway s.ipv4_gateway;
  ipv6_enabled = or_else u.ipv6_enabled s.ipv6_enabled;
  ipv6_address = or_default u.ipv6_address s.ipv6_address;
  ipv6_prefix_length = or_default u.ipv6_prefix_length s.ipv6_prefix_length;
  ipv6_gateway = or_default u.ipv6_gateway s.ipv6_gateway;
  dns_primary = or_default u.dns_primary s.dns_primary;
  dns_secondary = or_default u.dns_secondary s.dns_secondary;
  mtu = or_else u.mtu s.mtu;
  pppoe_username = or_default u.pppoe_username s.pppoe_username;
  pppoe_password = or_default u.pppoe_password s.pppoe_password;
}

abbrev pub wan_over_answer : WanUpdates → Reply WanConfig → Reply WanConfig
wan_over_answer u (ok status s) =
    if wan_no_fields u then refused 400 (error "No fields to update") else ok status (wan_over u s)
wan_over_answer u (refused status message) = refused status message
