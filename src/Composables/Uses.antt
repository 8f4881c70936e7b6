-- ===== src/Composables/Uses.antt =====
-- packages/portal-astro/src/composables/use*.ts: what each composable calls of the client.
use ngfw_sh.Prelude.{String, Bool, true, false, Option, none, some, List, [], ◌∷◌}
use ngfw_sh.Client.{
  update_nat_rule, update_route, update_vpn_server_config, update_ips_config, LogQuery, Call,
  list_devices, list_dashboards, create_route, create_nat_rule, create_vpn_client_profile,
  create_qos_rule, create_ddns_config, create_report, create_dashboard, list_routes, delete_route,
  list_nat_rules, delete_nat_rule, get_ips_config, list_ips_rules, list_ips_alerts,
  get_vpn_server_config, list_vpn_server_peers, delete_vpn_server_peer, list_vpn_client_profiles,
  delete_vpn_client_profile, get_vpn_client_status, connect_vpn_client, disconnect_vpn_client,
  list_qos_rules, delete_qos_rule, list_ddns_configs, delete_ddns_config, force_ddns_update,
  list_reports, get_report, delete_report, delete_dashboard, create_vpn_server_peer,
  update_vpn_client_profile, update_qos_rule, update_ddns_config, update_dashboard, query_logs,
}

-- `refetch`: whether it does nothing while no device is selected, what it calls (under `Promise.all`
-- where the calls are several), and what `error` says where it fails with no `Error`.
pub record Fetch (Body : Type 0) : Type 0 where
  pub guarded : Bool
  pub calls : String → LogQuery → List (Call Body)
  pub failed : String

-- The functions that the composables offer beside `refetch`: `create`, `update`, `remove`, `get`,
-- `getStatus`, `connect`, `disconnect`, `forceUpdate`, `updateConfig`, `createPeer` and `deletePeer`.
pub data Change (Body : Type 0) : Type 0 where
  create configure create_peer : Body → Change Body
  update : String → Body → Change Body
  remove look status_of connect disconnect force delete_peer : String → Change Body

-- Those that throw "No device ID provided" without a device.
abbrev pub on_device : {Body : Type 0} → Change Body → Bool
on_device (configure payload) = true
on_device (create_peer payload) = true
on_device ch = false

-- The call that a function makes, and what `error` says where it fails with no `Error`.
abbrev pub use_devices_fetch : {Body : Type 0} → Fetch Body
use_devices_fetch = record {
  guarded = false;
  calls = λ device q. list_devices ∷ [];
  failed = "Failed to fetch devices";
}

abbrev pub use_nat_fetch : {Body : Type 0} → Fetch Body
use_nat_fetch = record {
  guarded = true;
  calls = λ device q. list_nat_rules device ∷ [];
  failed = "Failed to fetch NAT rules";
}

abbrev pub use_nat_change : {Body : Type 0} → String → Change Body → Option (Call Body × String)
use_nat_change device (create payload) = some (create_nat_rule payload, "Failed to create NAT rule")
use_nat_change device (update id payload) =
    some (update_nat_rule id payload, "Failed to update NAT rule")
use_nat_change device (remove id) = some (delete_nat_rule id, "Failed to delete NAT rule")
use_nat_change device ch = none

abbrev pub use_routes_fetch : {Body : Type 0} → Fetch Body
use_routes_fetch = record {
  guarded = true;
  calls = λ device q. list_routes device ∷ [];
  failed = "Failed to fetch routes";
}

abbrev pub use_routes_change : {Body : Type 0} → String → Change Body → Option (Call Body × String)
use_routes_change device (create payload) = some (create_route payload, "Failed to create route")
use_routes_change device (update id payload) =
    some (update_route id payload, "Failed to update route")
use_routes_change device (remove id) = some (delete_route id, "Failed to delete route")
use_routes_change device ch = none

abbrev pub use_qos_fetch : {Body : Type 0} → Fetch Body
use_qos_fetch = record {
  guarded = true;
  calls = λ device q. list_qos_rules device ∷ [];
  failed = "Failed to fetch QoS rules";
}

abbrev pub use_qos_change : {Body : Type 0} → String → Change Body → Option (Call Body × String)
use_qos_change device (create payload) = some (create_qos_rule payload, "Failed to create QoS rule")
use_qos_change device (update id payload) =
    some (update_qos_rule id payload, "Failed to update QoS rule")
use_qos_change device (remove id) = some (delete_qos_rule id, "Failed to delete QoS rule")
use_qos_change device ch = none

abbrev pub use_ddns_fetch : {Body : Type 0} → Fetch Body
use_ddns_fetch = record {
  guarded = true;
  calls = λ device q. list_ddns_configs device ∷ [];
  failed = "Failed to fetch DDNS configs";
}

abbrev pub use_ddns_change : {Body : Type 0} → String → Change Body → Option (Call Body × String)
use_ddns_change device (create payload) =
    some (create_ddns_config payload, "Failed to create DDNS config")
use_ddns_change device (update id payload) =
    some (update_ddns_config id payload, "Failed to update DDNS config")
use_ddns_change device (remove id) = some (delete_ddns_config id, "Failed to delete DDNS config")
use_ddns_change device (force id) = some (force_ddns_update id, "Failed to force DDNS update")
use_ddns_change device ch = none

abbrev pub use_reports_fetch : {Body : Type 0} → Fetch Body
use_reports_fetch = record {
  guarded = true;
  calls = λ device q. list_reports device ∷ [];
  failed = "Failed to fetch reports";
}

abbrev pub use_reports_change : {Body : Type 0} → String → Change Body → Option (Call Body × String)
use_reports_change device (create payload) = some (create_report payload, "Failed to create report")
use_reports_change device (look id) = some (get_report id, "Failed to get report")
use_reports_change device (remove id) = some (delete_report id, "Failed to delete report")
use_reports_change device ch = none

abbrev pub use_dashboards_fetch : {Body : Type 0} → Fetch Body
use_dashboards_fetch = record {
  guarded = false;
  calls = λ device q. list_dashboards ∷ [];
  failed = "Failed to fetch dashboards";
}

abbrev pub use_dashboards_change :
    {Body : Type 0} → String → Change Body → Option (Call Body × String)
use_dashboards_change device (create payload) =
    some (create_dashboard payload, "Failed to create dashboard")
use_dashboards_change device (update id payload) =
    some (update_dashboard id payload, "Failed to update dashboard")
use_dashboards_change device (remove id) = some (delete_dashboard id, "Failed to delete dashboard")
use_dashboards_change device ch = none

abbrev pub use_vpn_client_fetch : {Body : Type 0} → Fetch Body
use_vpn_client_fetch = record {
  guarded = true;
  calls = λ device q. list_vpn_client_profiles device ∷ [];
  failed = "Failed to fetch VPN client profiles";
}

abbrev pub use_vpn_client_change :
    {Body : Type 0} → String → Change Body → Option (Call Body × String)
use_vpn_client_change device (create payload) =
    some (create_vpn_client_profile payload, "Failed to create VPN profile")
use_vpn_client_change device (update id payload) =
    some (update_vpn_client_profile id payload, "Failed to update VPN profile")
use_vpn_client_change device (remove id) =
    some (delete_vpn_client_profile id, "Failed to delete VPN profile")
use_vpn_client_change device (status_of id) =
    some (get_vpn_client_status id, "Failed to get VPN status")
use_vpn_client_change device (connect id) = some (connect_vpn_client id, "Failed to connect VPN")
use_vpn_client_change device (disconnect id) =
    some (disconnect_vpn_client id, "Failed to disconnect VPN")
use_vpn_client_change device ch = none

abbrev pub use_vpn_server_fetch : {Body : Type 0} → Fetch Body
use_vpn_server_fetch = record {
  guarded = true;
  calls = λ device q. get_vpn_server_config device ∷ list_vpn_server_peers device ∷ [];
  failed = "Failed to fetch VPN server data";
}

abbrev pub use_vpn_server_change :
    {Body : Type 0} → String → Change Body → Option (Call Body × String)
use_vpn_server_change device (configure payload) =
    some (update_vpn_server_config device payload, "Failed to update VPN server config")
use_vpn_server_change device (create_peer payload) =
    some (create_vpn_server_peer device payload, "Failed to create peer")
use_vpn_server_change device (delete_peer id) =
    some (delete_vpn_server_peer id, "Failed to delete peer")
use_vpn_server_change device ch = none

abbrev pub use_ips_fetch : {Body : Type 0} → Fetch Body
use_ips_fetch = record {
  guarded = true;
  calls = λ device q. get_ips_config device ∷ list_ips_rules device ∷ list_ips_alerts device ∷ [];
  failed = "Failed to fetch IPS data";
}

abbrev pub use_ips_change : {Body : Type 0} → String → Change Body → Option (Call Body × String)
use_ips_change device (configure payload) =
    some (update_ips_config device payload, "Failed to update IPS config")
use_ips_change device ch = none

abbrev pub use_logs_fetch : {Body : Type 0} → Fetch Body
use_logs_fetch = record {
  guarded = false;
  calls = λ device q. query_logs q ∷ [];
  failed = "Failed to fetch logs";
}
