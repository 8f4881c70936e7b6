-- ===== src/Composables.antt =====
-- packages/portal-astro/src/composables/use*.ts: the state that a page shows of the API. Each composable
-- loads what it shows when its component is mounted and again on `refetch`, and makes changes by calls of
-- the client. A call is in flight until its promise settles, in any order.
mod Uses
pub mod Screen
pub mod Loading
pub mod Idle
pub mod Changes
pub mod Unreachable
mod Tests
use ngfw_sh.Prelude.{String, Bool, Option, none, List}
use ngfw_sh.Client.{LogQuery, Call}
pub use Uses.{
  Fetch, Change, create, configure, create_peer, update, remove, look, status_of, connect,
  disconnect, force, delete_peer, on_device,
}
use Uses.{
  use_devices_fetch, use_nat_fetch, use_routes_fetch, use_qos_fetch, use_ddns_fetch,
  use_reports_fetch, use_dashboards_fetch, use_vpn_client_fetch, use_vpn_server_fetch,
  use_ips_fetch, use_logs_fetch, use_nat_change, use_routes_change, use_qos_change, use_ddns_change,
  use_reports_change, use_dashboards_change, use_vpn_client_change, use_vpn_server_change,
  use_ips_change,
}

pub data Composable : Type 0 where
  devices nat routes qos ddns reports dashboards vpn_client vpn_server ips logs : Composable

abbrev fetch_of : {Body : Type 0} → Composable → Fetch Body
fetch_of devices = use_devices_fetch
fetch_of nat = use_nat_fetch
fetch_of routes = use_routes_fetch
fetch_of qos = use_qos_fetch
fetch_of ddns = use_ddns_fetch
fetch_of reports = use_reports_fetch
fetch_of dashboards = use_dashboards_fetch
fetch_of vpn_client = use_vpn_client_fetch
fetch_of vpn_server = use_vpn_server_fetch
fetch_of ips = use_ips_fetch
fetch_of logs = use_logs_fetch

-- Those that do nothing while no device is selected.
abbrev pub needs_device : Composable → Bool
needs_device c = (fetch_of {Body = String} c).guarded

abbrev pub fetch_calls : {Body : Type 0} → Composable → String → LogQuery → List (Call Body)
fetch_calls c device q = (fetch_of c).calls device q

abbrev pub fetch_failed : Composable → String
fetch_failed c = (fetch_of {Body = String} c).failed

abbrev pub change_call :
    {Body : Type 0} → Composable → String → Change Body → Option (Call Body × String)
change_call devices device ch = none
change_call nat device ch = use_nat_change device ch
change_call routes device ch = use_routes_change device ch
change_call qos device ch = use_qos_change device ch
change_call ddns device ch = use_ddns_change device ch
change_call reports device ch = use_reports_change device ch
change_call dashboards device ch = use_dashboards_change device ch
change_call vpn_client device ch = use_vpn_client_change device ch
change_call vpn_server device ch = use_vpn_server_change device ch
change_call ips device ch = use_ips_change device ch
change_call logs device ch = none
