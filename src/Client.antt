-- ===== src/Client.antt =====
-- packages/portal-astro/src/lib/api/client.ts: the requests that the portal makes of the API, and what
-- it takes from the answers. A method and a path are what the server's routers see of a request.
pub mod Uri
pub mod Reach
pub mod Arrival
pub mod Answers
pub mod Session
mod Tests
use ngfw_sh.Prelude.Text.{append}
use ngfw_sh.Prelude.{eqb, if◌then◌else◌, truthy, ℕ, String, Option, none, some, List, [], ◌∷◌, ◌++◌}
use ngfw_sh.Routes.{Method, get, post, put, delete}
use ngfw_sh.Client.Uri.{encode_uri_component}

pub record Request : Type 0 where
  pub method : Method
  pub path : String
  pub body : Option String

-- `LogQuery`.
pub record LogQuery : Type 0 where
  pub device_id : Option String
  pub level : Option String
  pub category : Option String
  pub start_time : Option ℕ
  pub end_time : Option ℕ
  pub limit : Option ℕ
  pub offset : Option ℕ

-- The functions of `ApiClient`, with their arguments.
pub data Call (Body : Type 0) : Type 0 where
  list_devices list_dashboards : Call Body
  register_device create_route create_nat_rule create_vpn_client_profile : Body → Call Body
  create_qos_rule create_ddns_config create_report create_dashboard : Body → Call Body
  get_device_status delete_device list_routes delete_route : String → Call Body
  list_nat_rules delete_nat_rule get_ips_config list_ips_rules list_ips_alerts : String → Call Body
  get_vpn_server_config list_vpn_server_peers delete_vpn_server_peer : String → Call Body
  list_vpn_client_profiles delete_vpn_client_profile get_vpn_client_status : String → Call Body
  connect_vpn_client disconnect_vpn_client list_qos_rules delete_qos_rule : String → Call Body
  list_ddns_configs delete_ddns_config force_ddns_update : String → Call Body
  list_reports get_report delete_report delete_dashboard : String → Call Body
  update_route update_nat_rule update_ips_config update_vpn_server_config :
      String → Body → Call Body
  create_vpn_server_peer update_vpn_client_profile update_qos_rule : String → Body → Call Body
  update_ddns_config update_dashboard : String → Body → Call Body
  query_logs : LogQuery → Call Body

abbrev fetches : String → Request
fetches path = record { method = get; path = path; body = none }

abbrev deletes : String → Request
deletes path = record { method = delete; path = path; body = none }

abbrev posts : String → Request
posts path = record { method = post; path = path; body = none }

abbrev sends : Method → String → String → Request
sends method path text = record { method = method; path = path; body = some text }

-- `${base}${encodeURIComponent(id)}`, and with a text after it.
unfoldable pub at : String → String → String
unfolding encode_uri_component
at base id = append base (encode_uri_component id)

unfoldable pub at_then : String → String → String → String
unfolding encode_uri_component
at_then base id rest = append base (append (encode_uri_component id) rest)

abbrev given_text : String → Option String → List (String × String)
given_text name value = elim (truthy value) [ none ↦ [] | some v ↦ (name, v) ∷ [] ]

-- `show` is JavaScript's text of a number, and `query_string` is `URLSearchParams.toString`.
module _ {Body : Type 0} (stringify : Body → String) (with_device : String → Body → Body)
    (show : ℕ → String) (query_string : List (String × String) → String) where
  abbrev given_number : String → Option ℕ → List (String × String)
  given_number name none = []
  given_number name (some n) = if eqb n 0 then [] else (name, show n) ∷ []

  -- The parameters of `queryLogs`.
  unfoldable pub log_params : LogQuery → List (String × String)
  log_params q =
      given_text "device_id" q.device_id
      ++ given_text "level" q.level
      ++ given_text "category" q.category
      ++ given_number "start_time" q.start_time
      ++ given_number "end_time" q.end_time
      ++ given_number "limit" q.limit
      ++ given_number "offset" q.offset

  unfoldable pub call_request : Call Body → Request
  unfolding at at_then log_params
  call_request list_devices = fetches "/fleet/devices"
  call_request (register_device payload) = sends post "/fleet/devices" (stringify payload)
  call_request (get_device_status id) = fetches (at_then "/fleet/devices/" id "/status")
  call_request (delete_device id) = deletes (at "/fleet/devices/" id)
  call_request (list_routes id) = fetches (at "/routing/routes?device_id=" id)
  call_request (create_route payload) = sends post "/routing/routes" (stringify payload)
  call_request (update_route id payload) = sends put (at "/routing/routes/" id) (stringify payload)
  call_request (delete_route id) = deletes (at "/routing/routes/" id)
  call_request (list_nat_rules id) = fetches (at "/nat/rules?device_id=" id)
  call_request (create_nat_rule payload) = sends post "/nat/rules" (stringify payload)
  call_request (update_nat_rule id payload) = sends put (at "/nat/rules/" id) (stringify payload)
  call_request (delete_nat_rule id) = deletes (at "/nat/rules/" id)
  call_request (get_ips_config id) = fetches (at "/ips/config?device_id=" id)
  call_request (update_ips_config id payload) =
      sends put (at "/ips/config?device_id=" id) (stringify payload)
  call_request (list_ips_rules id) = fetches (at "/ips/rules?device_id=" id)
  call_request (list_ips_alerts id) = fetches (at "/ips/alerts?device_id=" id)
  call_request (get_vpn_server_config id) = fetches (at "/vpn/server/config?device_id=" id)
  call_request (update_vpn_server_config id payload) =
      sends put (at "/vpn/server/config?device_id=" id) (stringify payload)
  call_request (list_vpn_server_peers id) = fetches (at "/vpn/server/peers?device_id=" id)
  call_request (create_vpn_server_peer id payload) =
      sends post "/vpn/server/peers" (stringify (with_device id payload))
  call_request (delete_vpn_server_peer id) = deletes (at "/vpn/server/peers/" id)
  call_request (list_vpn_client_profiles id) = fetches (at "/vpn/client/profiles?device_id=" id)
  call_request (create_vpn_client_profile payload) =
      sends post "/vpn/client/profiles" (stringify payload)
  call_request (update_vpn_client_profile id payload) =
      sends put (at "/vpn/client/profiles/" id) (stringify payload)
  call_request (delete_vpn_client_profile id) = deletes (at "/vpn/client/profiles/" id)
  call_request (get_vpn_client_status id) = fetches (at_then "/vpn/client/profiles/" id "/status")
  call_request (connect_vpn_client id) = posts (at_then "/vpn/client/profiles/" id "/connect")
  call_request (disconnect_vpn_client id) = posts (at_then "/vpn/client/profiles/" id "/disconnect")
  call_request (list_qos_rules id) = fetches (at "/qos/rules?device_id=" id)
  call_request (create_qos_rule payload) = sends post "/qos/rules" (stringify payload)
  call_request (update_qos_rule id payload) = sends put (at "/qos/rules/" id) (stringify payload)
  call_request (delete_qos_rule id) = deletes (at "/qos/rules/" id)
  call_request (list_ddns_configs id) = fetches (at "/ddns/configs?device_id=" id)
  call_request (create_ddns_config payload) = sends post "/ddns/configs" (stringify payload)
  call_request (update_ddns_config id payload) =
      sends put (at "/ddns/configs/" id) (stringify payload)
  call_request (delete_ddns_config id) = deletes (at "/ddns/configs/" id)
  call_request (force_ddns_update id) = posts (at_then "/ddns/configs/" id "/update")
  call_request (list_reports id) = fetches (at "/reports?device_id=" id)
  call_request (create_report payload) = sends post "/reports" (stringify payload)
  call_request (get_report id) = fetches (at "/reports/" id)
  call_request (delete_report id) = deletes (at "/reports/" id)
  call_request (query_logs q) = fetches (append "/logs?" (query_string (log_params q)))
  call_request list_dashboards = fetches "/dashboards"
  call_request (create_dashboard payload) = sends post "/dashboards" (stringify payload)
  call_request (update_dashboard id payload) = sends put (at "/dashboards/" id) (stringify payload)
  call_request (delete_dashboard id) = deletes (at "/dashboards/" id)
