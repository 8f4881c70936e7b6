-- ===== src/DeviceConfig/Lan.antt =====
-- packages/schema/src/endpoints/lan: the handlers that read and update the LAN configuration. They answer
-- constants in place of a device's configuration. Numbers are those that a schema lets through: whole and not negative.
use ngfw_sh.Prelude.{
  leb, if◌then◌else◌, or_else, ℕ, String, Bool, true, false, ◌&&◌, Option, none, some,
}
use ngfw_sh.Platform.Http.{error, Reply, ok, refused}
use ngfw_sh.DeviceConfig.{is_missing, or_default, all_in}

pub record LanConfig : Type 0 where
  pub id : ℕ
  pub interface : String
  pub enabled : Bool
  pub ipv4_address : String
  pub ipv4_netmask : String
  pub ipv6_enabled : Bool
  pub ipv6_address : Option String
  pub ipv6_prefix_length : Option ℕ
  pub dhcp_enabled : Bool
  pub vlan_id : Option ℕ
  pub bridge_interfaces : Option String
  pub updated_at : ℕ

-- `updateFields`.
pub record LanUpdates : Type 0 where
  pub interface : Option String
  pub enabled : Option Bool
  pub ipv4_address : Option String
  pub ipv4_netmask : Option String
  pub ipv6_enabled : Option Bool
  pub ipv6_address : Option (Option String)
  pub ipv6_prefix_length : Option (Option ℕ)
  pub dhcp_enabled : Option Bool
  pub vlan_id : Option (Option ℕ)
  pub bridge_interfaces : Option (Option String)

abbrev pub lan_no_fields : LanUpdates → Bool
lan_no_fields u =
    is_missing u.interface
    && is_missing u.enabled
    && is_missing u.ipv4_address
    && is_missing u.ipv4_netmask
    && is_missing u.ipv6_enabled
    && is_missing u.ipv6_address
    && is_missing u.ipv6_prefix_length
    && is_missing u.dhcp_enabled
    && is_missing u.vlan_id
    && is_missing u.bridge_interfaces

-- `lanConfig`.
abbrev pub lan_valid_config : LanConfig → Bool
lan_valid_config s =
    all_in (λ n. leb n 128) s.ipv6_prefix_length && all_in (λ n. leb 1 n && leb n 4094) s.vlan_id

abbrev pub lan_valid_updates : LanUpdates → Bool
lan_valid_updates u =
    all_in (all_in (λ n. leb n 128)) u.ipv6_prefix_length
    && all_in (all_in (λ n. leb 1 n && leb n 4094)) u.vlan_id

unfoldable pub lan_config_read : ℕ → Reply LanConfig
lan_config_read now = ok 200 record {
  id = 1;
  interface = "br-lan";
  enabled = true;
  ipv4_address = "192.168.1.1";
  ipv4_netmask = "255.255.255.0";
  ipv6_enabled = false;
  ipv6_address = none;
  ipv6_prefix_length = none;
  dhcp_enabled = true;
  vlan_id = none;
  bridge_interfaces = some "eth1,eth2,eth3,eth4";
  updated_at = now;
}

abbrev pub lan_mock : ℕ → LanUpdates → LanConfig
lan_mock now u = record {
  id = 1;
  interface = or_else u.interface "br-lan";
  enabled = or_else u.enabled true;
  ipv4_address = or_else u.ipv4_address "192.168.1.1";
  ipv4_netmask = or_else u.ipv4_netmask "255.255.255.0";
  ipv6_enabled = or_else u.ipv6_enabled false;
  ipv6_address = or_default u.ipv6_address none;
  ipv6_prefix_length = or_default u.ipv6_prefix_length none;
  dhcp_enabled = or_else u.dhcp_enabled true;
  vlan_id = or_default u.vlan_id none;
  bridge_interfaces = or_default u.bridge_interfaces (some "eth1,eth2,eth3,eth4");
  updated_at = now;
}

-- After the validation of the body.
unfoldable pub lan_config_update : ℕ → LanUpdates → Reply LanConfig
lan_config_update now u =
    if lan_no_fields u then refused 400 (error "No fields to update") else ok 200 (lan_mock now u)

-- A configuration with the fields over it that are given and not null.
abbrev pub lan_over : LanUpdates → LanConfig → LanConfig
lan_over u s = record s {
  interface = or_else u.interface s.interface;
  enabled = or_else u.enabled s.enabled;
  ipv4_address = or_else u.ipv4_address s.ipv4_address;
  ipv4_netmask = or_else u.ipv4_netmask s.ipv4_netmask;
  ipv6_enabled = or_else u.ipv6_enabled s.ipv6_enabled;
  ipv6_address = or_default u.ipv6_address s.ipv6_address;
  ipv6_prefix_length = or_default u.ipv6_prefix_length s.ipv6_prefix_length;
  dhcp_enabled = or_else u.dhcp_enabled s.dhcp_enabled;
  vlan_id = or_default u.vlan_id s.vlan_id;
  bridge_interfaces = or_default u.bridge_interfaces s.bridge_interfaces;
}

abbrev pub lan_over_answer : LanUpdates → Reply LanConfig → Reply LanConfig
lan_over_answer u (ok status s) =
    if lan_no_fields u then refused 400 (error "No fields to update") else ok status (lan_over u s)
lan_over_answer u (refused status message) = refused status message
