-- ===== src/Routes.antt =====
-- packages/schema/src/index.ts and endpoints/*/router.ts: the routes that the API worker registers, in
-- their order. Hono finds the first registered route that fits a request's method and path. The router
-- of `/logs` is not in the repository, and its routes are left out.
mod Segments
unfoldable pub use Segments.{split}
pub use Segments.{join, split-append, split_lem}
use ngfw_sh.Prelude.Text.{append}
use ngfw_sh.Prelude.{
  ◌==◌, if◌then◌else◌, String, Bool, true, false, ◌&&◌, Option, none, some, List, [], ◌∷◌, ◌++◌,
}

pub data Method : Type 0 where
  get post put delete : Method

-- The endpoint classes, by their names.
pub data Endpoint : Type 0 where
  plan_list plan_read : Endpoint
  device_list device_register device_delete device_status : Endpoint
  wan_config_read wan_config_update lan_config_read lan_config_update : Endpoint
  wifi_radios_read wifi_radios_update wifi_networks_read wifi_networks_update : Endpoint
  dhcp_config_read dhcp_config_update dhcp_leases_list : Endpoint
  route_list route_create route_update route_delete : Endpoint
  nat_rule_list nat_rule_create nat_rule_update nat_rule_delete upnp_list : Endpoint
  ips_config_read ips_config_update ips_category_list ips_category_update : Endpoint
  ips_rule_list ips_rule_create ips_rule_delete ips_alert_list : Endpoint
  vpn_server_config_read vpn_server_config_update : Endpoint
  vpn_server_peer_list vpn_server_peer_create vpn_server_peer_delete : Endpoint
  profile_list profile_create profile_update profile_delete connect disconnect : Endpoint
  qos_config_read qos_config_update qos_rule_list qos_rule_create qos_rule_update qos_rule_delete :
      Endpoint
  ddns_provider_list ddns_config_read ddns_config_update ddns_force_update : Endpoint
  report_list report_generate report_read report_delete : Endpoint
  onboarding_router_list onboarding_order_create onboarding_status_read : Endpoint
  dashboard_list dashboard_read : Endpoint

pub record Route : Type 0 where
  pub method : Method
  pub pattern : String
  pub endpoint : Endpoint

abbrev route : String → Method → String → Endpoint → Route
route base method pattern endpoint = record {
  method = method;
  pattern = append base (if pattern == "/" then "" else pattern);
  endpoint = endpoint;
}

abbrev billing_router : List Route
billing_router =
    route "/billing" get "/plans" plan_list ∷ route "/billing" get "/plans/:id" plan_read ∷ []

abbrev fleet_router : List Route
fleet_router =
    route "/fleet" get "/devices" device_list
    ∷ route "/fleet" post "/devices" device_register
    ∷ route "/fleet" delete "/devices/:id" device_delete
    ∷ route "/fleet" get "/devices/:id/status" device_status
    ∷ []

abbrev wan_router : List Route
wan_router =
    route "/wan" get "/config" wan_config_read ∷ route "/wan" put "/config" wan_config_update ∷ []

abbrev lan_router : List Route
lan_router =
    route "/lan" get "/config" lan_config_read ∷ route "/lan" put "/config" lan_config_update ∷ []

abbrev wifi_router : List Route
wifi_router =
    route "/wifi" get "/radios" wifi_radios_read
    ∷ route "/wifi" put "/radios" wifi_radios_update
    ∷ route "/wifi" get "/networks" wifi_networks_read
    ∷ route "/wifi" put "/networks" wifi_networks_update
    ∷ []

abbrev dhcp_router : List Route
dhcp_router =
    route "/dhcp" get "/config" dhcp_config_read
    ∷ route "/dhcp" put "/config" dhcp_config_update
    ∷ route "/dhcp" get "/leases" dhcp_leases_list
    ∷ []

abbrev routing_router : List Route
routing_router =
    route "/routing" get "/routes" route_list
    ∷ route "/routing" post "/routes" route_create
    ∷ route "/routing" put "/routes/:id" route_update
    ∷ route "/routing" delete "/routes/:id" route_delete
    ∷ []

abbrev nat_router : List Route
nat_router =
    route "/nat" get "/rules" nat_rule_list
    ∷ route "/nat" post "/rules" nat_rule_create
    ∷ route "/nat" put "/rules/:id" nat_rule_update
    ∷ route "/nat" delete "/rules/:id" nat_rule_delete
    ∷ route "/nat" get "/upnp" upnp_list
    ∷ []

abbrev ips_router : List Route
ips_router =
    route "/ips" get "/config" ips_config_read
    ∷ route "/ips" put "/config" ips_config_update
    ∷ route "/ips" get "/categories" ips_category_list
    ∷ route "/ips" put "/categories/:id" ips_category_update
    ∷ route "/ips" get "/rules" ips_rule_list
    ∷ route "/ips" post "/rules" ips_rule_create
    ∷ route "/ips" delete "/rules/:id" ips_rule_delete
    ∷ route "/ips" get "/alerts" ips_alert_list
    ∷ []

abbrev vpn_server_router : List Route
vpn_server_router =
    route "/vpn/server" get "/config" vpn_server_config_read
    ∷ route "/vpn/server" put "/config" vpn_server_config_update
    ∷ route "/vpn/server" get "/peers" vpn_server_peer_list
    ∷ route "/vpn/server" post "/peers" vpn_server_peer_create
    ∷ route "/vpn/server" delete "/peers/:id" vpn_server_peer_delete
    ∷ []

abbrev vpn_client_router : List Route
vpn_client_router =
    route "/vpn/client" get "/profiles" profile_list
    ∷ route "/vpn/client" post "/profiles" profile_create
    ∷ route "/vpn/client" put "/profiles/:id" profile_update
    ∷ route "/vpn/client" delete "/profiles/:id" profile_delete
    ∷ route "/vpn/client" post "/profiles/:id/connect" connect
    ∷ route "/vpn/client" post "/profiles/:id/disconnect" disconnect
    ∷ []

abbrev qos_router : List Route
qos_router =
    route "/qos" get "/config" qos_config_read
    ∷ route "/qos" put "/config" qos_config_update
    ∷ route "/qos" get "/rules" qos_rule_list
    ∷ route "/qos" post "/rules" qos_rule_create
    ∷ route "/qos" put "/rules/:id" qos_rule_update
    ∷ route "/qos" delete "/rules/:id" qos_rule_delete
    ∷ []

abbrev ddns_router : List Route
ddns_router =
    route "/ddns" get "/providers" ddns_provider_list
    ∷ route "/ddns" get "/config/:deviceId" ddns_config_read
    ∷ route "/ddns" put "/config/:deviceId" ddns_config_update
    ∷ route "/ddns" post "/update/:deviceId" ddns_force_update
    ∷ []

abbrev reports_router : List Route
reports_router =
    route "/reports" get "/" report_list
    ∷ route "/reports" post "/generate" report_generate
    ∷ route "/reports" get "/:id" report_read
    ∷ route "/reports" delete "/:id" report_delete
    ∷ []

abbrev onboarding_router : List Route
onboarding_router =
    route "/onboarding" get "/routers" onboarding_router_list
    ∷ route "/onboarding" post "/order" onboarding_order_create
    ∷ route "/onboarding" get "/status" onboarding_status_read
    ∷ []

abbrev dashboards_router : List Route
dashboards_router =
    route "/dashboards" get "/" dashboard_list ∷ route "/dashboards" get "/:id" dashboard_read ∷ []

unfoldable pub routes : List Route
routes =
    billing_router ++ fleet_router ++ wan_router ++ lan_router ++ wifi_router ++ dhcp_router
    ++ routing_router ++ nat_router ++ ips_router ++ vpn_server_router ++ vpn_client_router
    ++ qos_router ++ ddns_router ++ reports_router ++ onboarding_router ++ dashboards_router

abbrev same_method : Method → Method → Bool
same_method get get = true
same_method post post = true
same_method put put = true
same_method delete delete = true
same_method m n = false

abbrev is_parameter : String → Bool
is_parameter String.[] = false
is_parameter (String.◌∷◌ c s) = String.◌∷◌ c "" == ":"

-- `:name` stands for any one segment.
abbrev fit : List String → List String → Bool
fit [] [] = true
fit (p ∷ ps) (s ∷ ss) = (if is_parameter p then true else p == s) && fit ps ss
fit ps ss = false

unfoldable pub first_fit : List Route → Method → List String → Option Endpoint
unfolding split
first_fit [] m ss = none
first_fit (r ∷ rs) m ss =
    if same_method r.method m && fit (split r.pattern) ss
    then some r.endpoint
    else first_fit rs m ss
