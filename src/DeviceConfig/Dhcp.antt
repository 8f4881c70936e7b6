-- ===== src/DeviceConfig/Dhcp.antt =====
-- packages/schema/src/endpoints/dhcp: the handlers that read and update the DHCP configuration. They answer
-- constants in place of a device's configuration. Numbers are those that a schema lets through: whole and not negative.
use ngfw_sh.Prelude.{leb, if◌then◌else◌, or_else, ℕ, String, Bool, true, ◌&&◌, Option, some}
use ngfw_sh.Platform.Http.{error, Reply, ok, refused}
use ngfw_sh.DeviceConfig.{is_missing, or_default, all_in}

pub record DhcpConfig : Type 0 where
  pub id : ℕ
  pub interface : String
  pub enabled : Bool
  pub start_ip : String
  pub end_ip : String
  pub subnet_mask : String
  pub gateway : String
  pub dns_primary : String
  pub dns_secondary : Option String
  pub lease_time : ℕ
  pub domain_name : Option String
  pub updated_at : ℕ

-- `updateFields`.
pub record DhcpUpdates : Type 0 where
  pub interface : Option String
  pub enabled : Option Bool
  pub start_ip : Option String
  pub end_ip : Option String
  pub subnet_mask : Option String
  pub gateway : Option String
  pub dns_primary : Option String
  pub dns_secondary : Option (Option String)
  pub lease_time : Option ℕ
  pub domain_name : Option (Option String)

abbrev pub dhcp_no_fields : DhcpUpdates → Bool
dhcp_no_fields u =
    is_missing u.interface
    && is_missing u.enabled
    && is_missing u.start_ip
    && is_missing u.end_ip
    && is_missing u.subnet_mask
    && is_missing u.gateway
    && is_missing u.dns_primary
    && is_missing u.dns_secondary
    && is_missing u.lease_time
    && is_missing u.domain_name

-- `dhcpConfig`.
abbrev pub dhcp_valid_config : DhcpConfig → Bool
dhcp_valid_config s = (leb 60 s.lease_time)

abbrev pub dhcp_valid_updates : DhcpUpdates → Bool
dhcp_valid_updates u = all_in (λ n. leb 60 n) u.lease_time

unfoldable pub dhcp_config_read : ℕ → Reply DhcpConfig
dhcp_config_read now = ok 200 record {
  id = 1;
  interface = "br-lan";
  enabled = true;
  start_ip = "192.168.1.100";
  end_ip = "192.168.1.200";
  subnet_mask = "255.255.255.0";
  gateway = "192.168.1.1";
  dns_primary = "192.168.1.1";
  dns_secondary = some "8.8.8.8";
  lease_time = 86400;
  domain_name = some "lan";
  updated_at = now;
}

abbrev pub dhcp_mock : ℕ → DhcpUpdates → DhcpConfig
dhcp_mock now u = record {
  id = 1;
  interface = or_else u.interface "br-lan";
  enabled = or_else u.enabled true;
  start_ip = or_else u.start_ip "192.168.1.100";
  end_ip = or_else u.end_ip "192.168.1.200";
  subnet_mask = or_else u.subnet_mask "255.255.255.0";
  gateway = or_else u.gateway "192.168.1.1";
  dns_primary = or_else u.dns_primary "192.168.1.1";
  dns_secondary = or_default u.dns_secondary (some "8.8.8.8");
  lease_time = or_else u.lease_time 86400;
  domain_name = or_default u.domain_name (some "lan");
  updated_at = now;
}

-- After the validation of the body.
unfoldable pub dhcp_config_update : ℕ → DhcpUpdates → Reply DhcpConfig
dhcp_config_update now u =
    if dhcp_no_fields u then refused 400 (error "No fields to update") else ok 200 (dhcp_mock now u)

-- A configuration with the fields over it that are given and not null.
abbrev pub dhcp_over : DhcpUpdates → DhcpConfig → DhcpConfig
dhcp_over u s = record s {
  interface = or_else u.interface s.interface;
  enabled = or_else u.enabled s.enabled;
  start_ip = or_else u.start_ip s.start_ip;
  end_ip = or_else u.end_ip s.end_ip;
  subnet_mask = or_else u.subnet_mask s.subnet_mask;
  gateway = or_else u.gateway s.gateway;
  dns_primary = or_else u.dns_primary s.dns_primary;
  dns_secondary = or_default u.dns_secondary s.dns_secondary;
  lease_time = or_else u.lease_time s.lease_time;
  domain_name = or_default u.domain_name s.domain_name;
}

abbrev pub dhcp_over_answer : DhcpUpdates → Reply DhcpConfig → Reply DhcpConfig
dhcp_over_answer u (ok status s) =
    if dhcp_no_fields u
    then refused 400 (error "No fields to update")
    else ok status (dhcp_over u s)
dhcp_over_answer u (refused status message) = refused status message
