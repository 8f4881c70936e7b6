-- ===== src/DeviceConfig/Tests.antt =====
-- packages/schema/src/endpoints/wan, lan and dhcp on updates of a few fields.
use ngfw_sh.Prelude.{false, none, some}
use ngfw_sh.DeviceConfig.Wan.{WanUpdates}
use ngfw_sh.DeviceConfig.Lan.{LanUpdates}
use ngfw_sh.DeviceConfig.Dhcp.{DhcpUpdates}

-- The static address is taken away.
abbrev wan : WanUpdates
wan = record {
  interface = none;
  connection_type = none;
  enabled = none;
  ipv4_address = some none;
  ipv4_netmask = none;
  ipv4_gateway = none;
  ipv6_enabled = none;
  ipv6_address = none;
  ipv6_prefix_length = none;
  ipv6_gateway = none;
  dns_primary = none;
  dns_secondary = none;
  mtu = some 1400;
  pppoe_username = none;
  pppoe_password = none;
}

abbrev lan : LanUpdates
lan = record {
  interface = none;
  enabled = some false;
  ipv4_address = none;
  ipv4_netmask = none;
  ipv6_enabled = none;
  ipv6_address = none;
  ipv6_prefix_length = none;
  dhcp_enabled = none;
  vlan_id = some (some 20);
  bridge_interfaces = none;
}

abbrev dhcp_updates : DhcpUpdates
dhcp_updates = record {
  interface = none;
  enabled = none;
  start_ip = none;
  end_ip = none;
  subnet_mask = none;
  gateway = none;
  dns_primary = none;
  dns_secondary = none;
  lease_time = none;
  domain_name = none;
}
