-- ===== src/Client/Arrival.antt =====
-- Every function of packages/portal-astro/src/lib/api/client.ts against the routes of the API worker.
use ngfw_sh.Prelude.{ℕ, String, ◌≡◌, refl, ap, ◌∙◌, true, ◌&&◌, List, [], ◌∷◌, ◌++◌}
use ngfw_sh.Prelude.Text.{append, lacks}
use ngfw_sh.Routes.{split, Method, routes, first_fit, get, post, put, delete}
use ngfw_sh.Client.{
  Call, call_request, list_devices, list_dashboards, register_device, create_route, create_nat_rule,
  create_vpn_client_profile, create_qos_rule, create_ddns_config, create_report, create_dashboard,
  get_device_status, delete_device, list_routes, delete_route, list_nat_rules, delete_nat_rule,
  get_ips_config, list_ips_rules, list_ips_alerts, get_vpn_server_config, list_vpn_server_peers,
  delete_vpn_server_peer, list_vpn_client_profiles, delete_vpn_client_profile,
  get_vpn_client_status, connect_vpn_client, disconnect_vpn_client, list_qos_rules, delete_qos_rule,
  list_ddns_configs, delete_ddns_config, force_ddns_update, list_reports, get_report, delete_report,
  delete_dashboard, update_route, update_nat_rule, update_ips_config, update_vpn_server_config,
  create_vpn_server_peer, update_vpn_client_profile, update_qos_rule, update_ddns_config,
  update_dashboard, query_logs,
}
use ngfw_sh.Client.Uri.{encode_uri_component}
use ngfw_sh.Client.Reach.{
  is_ordinary, Router, HasTarget, target, split-encode, split-encode_then, all_plain, fixed, named,
}

module _ {Body : Type 0} (r : Router) (stringify : Body → String)
    (with_device : String → Body → Body) (show : ℕ → String)
    (query_string : List (String × String) → String) where
  open r use {decode, dispatch}

  identified :
      (m : Method) (base : String) (before : List String) (id : String)
      → ((t : String) → split (append base t) ≡ "" ∷ before ++ split t)
      → all_plain before ≡ true
      → is_ordinary id ≡ true
      → dispatch routes m (append base (encode_uri_component id))
        ≡ first_fit routes m ("" ∷ before ++ decode (encode_uri_component id) ∷ [])
  identified m base before id e h o =
      named r m (append base (encode_uri_component id)) before [] id
        (e (encode_uri_component id) ∙ ap (λ ss. "" ∷ before ++ ss) (split-encode id)) (rw h refl) o

  identified_then :
      (m : Method) (base : String) (before : List String) (id rest : String) (after : List String)
      → ((t : String) → split (append base t) ≡ "" ∷ before ++ split t)
      → split rest ≡ "" ∷ after
      → all_plain before && all_plain after ≡ true
      → is_ordinary id ≡ true
      → dispatch routes m (append base (append (encode_uri_component id) rest))
        ≡ first_fit routes m ("" ∷ before ++ decode (encode_uri_component id) ∷ after)
  identified_then m base before id rest after e f h o =
      named r m (append base (append (encode_uri_component id) rest)) before after id
        (e (append (encode_uri_component id) rest)
          ∙ ap (λ ss. "" ∷ before ++ ss) (split-encode_then id rest after f))
        h o

  -- The request of every function but the log query, with an identifier that is none of "", "." and "..",
  -- is dispatched to the endpoint that the function is named for. The functions for the DDNS
  -- configurations of the path `/ddns/configs`, `createReport`, `getVPNClientStatus` and those that
  -- create, update and delete a dashboard reach no endpoint.
  pub dispatch-call_request :
      (c : Call Body)
      → HasTarget c
      → let q = call_request stringify with_device show query_string c in
        dispatch routes q.method q.path ≡ target c
  unfolding call_request split routes first_fit lacks
  dispatch-call_request list_devices (h, o) = fixed r get _ ("fleet" ∷ "devices" ∷ []) refl refl
  dispatch-call_request (register_device payload) (h, o) =
      fixed r post _ ("fleet" ∷ "devices" ∷ []) refl refl
  dispatch-call_request (get_device_status id) (h, o) =
      identified_then get "/fleet/devices/" ("fleet" ∷ "devices" ∷ []) id "/status" ("status" ∷ [])
        (λ t. refl) refl refl o
  dispatch-call_request (delete_device id) (h, o) =
      identified delete "/fleet/devices/" ("fleet" ∷ "devices" ∷ []) id (λ t. refl) refl o
  dispatch-call_request (list_routes id) (h, o) =
      fixed r get _ ("routing" ∷ "routes" ∷ []) refl refl
  dispatch-call_request (create_route payload) (h, o) =
      fixed r post _ ("routing" ∷ "routes" ∷ []) refl refl
  dispatch-call_request (update_route id payload) (h, o) =
      identified put "/routing/routes/" ("routing" ∷ "routes" ∷ []) id (λ t. refl) refl o
  dispatch-call_request (delete_route id) (h, o) =
      identified delete "/routing/routes/" ("routing" ∷ "routes" ∷ []) id (λ t. refl) refl o
  dispatch-call_request (list_nat_rules id) (h, o) = fixed r get _ ("nat" ∷ "rules" ∷ []) refl refl
  dispatch-call_request (create_nat_rule payload) (h, o) =
      fixed r post _ ("nat" ∷ "rules" ∷ []) refl refl
  dispatch-call_request (update_nat_rule id payload) (h, o) =
      identified put "/nat/rules/" ("nat" ∷ "rules" ∷ []) id (λ t. refl) refl o
  dispatch-call_request (delete_nat_rule id) (h, o) =
      identified delete "/nat/rules/" ("nat" ∷ "rules" ∷ []) id (λ t. refl) refl o
  dispatch-call_request (get_ips_config id) (h, o) = fixed r get _ ("ips" ∷ "config" ∷ []) refl refl
  dispatch-call_request (update_ips_config id payload) (h, o) =
      fixed r put _ ("ips" ∷ "config" ∷ []) refl refl
  dispatch-call_request (list_ips_rules id) (h, o) = fixed r get _ ("ips" ∷ "rules" ∷ []) refl refl
  dispatch-call_request (list_ips_alerts id) (h, o) =
      fixed r get _ ("ips" ∷ "alerts" ∷ []) refl refl
  dispatch-call_request (get_vpn_server_config id) (h, o) =
      fixed r get _ ("vpn" ∷ "server" ∷ "config" ∷ []) refl refl
  dispatch-call_request (update_vpn_server_config id payload) (h, o) =
      fixed r put _ ("vpn" ∷ "server" ∷ "config" ∷ []) refl refl
  dispatch-call_request (list_vpn_server_peers id) (h, o) =
      fixed r get _ ("vpn" ∷ "server" ∷ "peers" ∷ []) refl refl
  dispatch-call_request (create_vpn_server_peer id payload) (h, o) =
      fixed r post _ ("vpn" ∷ "server" ∷ "peers" ∷ []) refl refl
  dispatch-call_request (delete_vpn_server_peer id) (h, o) =
      identified delete "/vpn/server/peers/" ("vpn" ∷ "server" ∷ "peers" ∷ []) id (λ t. refl) refl o
  dispatch-call_request (list_vpn_client_profiles id) (h, o) =
      fixed r get _ ("vpn" ∷ "client" ∷ "profiles" ∷ []) refl refl
  dispatch-call_request (create_vpn_client_profile payload) (h, o) =
      fixed r post _ ("vpn" ∷ "client" ∷ "profiles" ∷ []) refl refl
  dispatch-call_request (update_vpn_client_profile id payload) (h, o) =
      identified put "/vpn/client/profiles/" ("vpn" ∷ "client" ∷ "profiles" ∷ []) id (λ t. refl)
        refl o
  dispatch-call_request (delete_vpn_client_profile id) (h, o) =
      identified delete "/vpn/client/profiles/" ("vpn" ∷ "client" ∷ "profiles" ∷ []) id (λ t. refl)
        refl o
  dispatch-call_request (get_vpn_client_status id) (h, o) =
      identified_then get "/vpn/client/profiles/" ("vpn" ∷ "client" ∷ "profiles" ∷ []) id "/status"
        ("status" ∷ []) (λ t. refl) refl refl o
  dispatch-call_request (connect_vpn_client id) (h, o) =
      identified_then post "/vpn/client/profiles/" ("vpn" ∷ "client" ∷ "profiles" ∷ []) id
        "/connect" ("connect" ∷ []) (λ t. refl) refl refl o
  dispatch-call_request (disconnect_vpn_client id) (h, o) =
      identified_then post "/vpn/client/profiles/" ("vpn" ∷ "client" ∷ "profiles" ∷ []) id
        "/disconnect" ("disconnect" ∷ []) (λ t. refl) refl refl o
  dispatch-call_request (list_qos_rules id) (h, o) = fixed r get _ ("qos" ∷ "rules" ∷ []) refl refl
  dispatch-call_request (create_qos_rule payload) (h, o) =
      fixed r post _ ("qos" ∷ "rules" ∷ []) refl refl
  dispatch-call_request (update_qos_rule id payload) (h, o) =
      identified put "/qos/rules/" ("qos" ∷ "rules" ∷ []) id (λ t. refl) refl o
  dispatch-call_request (delete_qos_rule id) (h, o) =
      identified delete "/qos/rules/" ("qos" ∷ "rules" ∷ []) id (λ t. refl) refl o
  dispatch-call_request (list_ddns_configs id) (h, o) =
      fixed r get _ ("ddns" ∷ "configs" ∷ []) refl refl
  dispatch-call_request (create_ddns_config payload) (h, o) =
      fixed r post _ ("ddns" ∷ "configs" ∷ []) refl refl
  dispatch-call_request (update_ddns_config id payload) (h, o) =
      identified put "/ddns/configs/" ("ddns" ∷ "configs" ∷ []) id (λ t. refl) refl o
  dispatch-call_request (delete_ddns_config id) (h, o) =
      identified delete "/ddns/configs/" ("ddns" ∷ "configs" ∷ []) id (λ t. refl) refl o
  dispatch-call_request (force_ddns_update id) (h, o) =
      identified_then post "/ddns/configs/" ("ddns" ∷ "configs" ∷ []) id "/update" ("update" ∷ [])
        (λ t. refl) refl refl o
  dispatch-call_request (list_reports id) (h, o) = fixed r get _ ("reports" ∷ []) refl refl
  dispatch-call_request (create_report payload) (h, o) = fixed r post _ ("reports" ∷ []) refl refl
  dispatch-call_request (get_report id) (h, o) =
      identified get "/reports/" ("reports" ∷ []) id (λ t. refl) refl o
  dispatch-call_request (delete_report id) (h, o) =
      identified delete "/reports/" ("reports" ∷ []) id (λ t. refl) refl o
  dispatch-call_request (query_logs q) (h, o) = absurd cc
  dispatch-call_request list_dashboards (h, o) = fixed r get _ ("dashboards" ∷ []) refl refl
  dispatch-call_request (create_dashboard payload) (h, o) =
      fixed r post _ ("dashboards" ∷ []) refl refl
  dispatch-call_request (update_dashboard id payload) (h, o) =
      identified put "/dashboards/" ("dashboards" ∷ []) id (λ t. refl) refl o
  dispatch-call_request (delete_dashboard id) (h, o) =
      identified delete "/dashboards/" ("dashboards" ∷ []) id (λ t. refl) refl o
