-- ===== src/Client/Reach.antt =====
-- Where the requests of packages/portal-astro/src/lib/api/client.ts arrive.
use text.Mathlib.TextEquality.{eq_iff}
use ngfw_sh.Prelude.{
  ◌==◌, or_else, All, String, ◌≡◌, refl, ap, ◌∙◌, ◌⊎◌, inl, inr, Bool, true, false, not, ◌&&◌,
  Option, none, some, List, [], ◌∷◌, ◌++◌, map, arith,
}
use ngfw_sh.Prelude.Text.{append, append_nil, lacks}
use ngfw_sh.Routes.{
  split, split-append, split_lem, Method, Endpoint, Route, routes, first_fit, device_list,
  device_register, device_delete, device_status, route_list, route_create, route_update,
  route_delete, nat_rule_list, nat_rule_create, nat_rule_update, nat_rule_delete, ips_config_read,
  ips_config_update, ips_rule_list, ips_alert_list, vpn_server_config_read,
  vpn_server_config_update, vpn_server_peer_list, vpn_server_peer_create, vpn_server_peer_delete,
  profile_list, profile_create, profile_update, profile_delete, connect, disconnect, qos_rule_list,
  qos_rule_create, qos_rule_update, qos_rule_delete, report_list, report_read, report_delete,
  dashboard_list,
}
use ngfw_sh.Client.{
  Call, list_devices, list_dashboards, register_device, create_route, create_nat_rule,
  create_vpn_client_profile, create_qos_rule, get_device_status, delete_device, list_routes,
  delete_route, list_nat_rules, delete_nat_rule, get_ips_config, list_ips_rules, list_ips_alerts,
  get_vpn_server_config, list_vpn_server_peers, delete_vpn_server_peer, list_vpn_client_profiles,
  delete_vpn_client_profile, get_vpn_client_status, connect_vpn_client, disconnect_vpn_client,
  list_qos_rules, delete_qos_rule, delete_ddns_config, force_ddns_update, list_reports, get_report,
  delete_report, delete_dashboard, update_route, update_nat_rule, update_ips_config,
  update_vpn_server_config, create_vpn_server_peer, update_vpn_client_profile, update_qos_rule,
  update_ddns_config, update_dashboard, query_logs,
}
use ngfw_sh.Client.Uri.{encode_uri_component}
use ngfw_sh.Client.Uri.Inverse.{encode_uri_component_injective, encode_uri_component-lacks}

-- A segment that the URL parser leaves where it is.
abbrev pub is_ordinary : String → Bool
is_ordinary s = not (s == "") && not (s == ".") && not (s == "..")

abbrev pub IsSegment : String → Type 0
IsSegment s =
    (is_ordinary s && lacks b'%' s ≡ true)
    ⊎ ((id : String) × (is_ordinary id ≡ true) × (s ≡ encode_uri_component id))

-- What Hono does with a path of such segments: it decodes it, and answers with the first route that fits.
pub record Router : Type 0 where
  pub decode : String → String
  pub decode_plain : (s : String) → lacks b'%' s ≡ true → decode s ≡ s
  pub dispatch : List Route → Method → String → Option Endpoint
  pub dispatch_lem :
      (rs : List Route) (m : Method) (path : String) (ss : List String)
      → split path ≡ "" ∷ ss
      → All IsSegment ss
      → dispatch rs m path ≡ first_fit rs m ("" ∷ map decode ss)

-- The identifier that a function puts into its path.
abbrev pub path_id : {Body : Type 0} → Call Body → Option String
path_id (get_device_status id) = some id
path_id (delete_device id) = some id
path_id (update_route id payload) = some id
path_id (delete_route id) = some id
path_id (update_nat_rule id payload) = some id
path_id (delete_nat_rule id) = some id
path_id (delete_vpn_server_peer id) = some id
path_id (update_vpn_client_profile id payload) = some id
path_id (delete_vpn_client_profile id) = some id
path_id (get_vpn_client_status id) = some id
path_id (connect_vpn_client id) = some id
path_id (disconnect_vpn_client id) = some id
path_id (update_qos_rule id payload) = some id
path_id (delete_qos_rule id) = some id
path_id (update_ddns_config id payload) = some id
path_id (delete_ddns_config id) = some id
path_id (force_ddns_update id) = some id
path_id (get_report id) = some id
path_id (delete_report id) = some id
path_id (update_dashboard id payload) = some id
path_id (delete_dashboard id) = some id
path_id c = none

abbrev is_logs : {Body : Type 0} → Call Body → Bool
is_logs (query_logs q) = true
is_logs c = false

abbrev pub HasTarget : {Body : Type 0} → Call Body → Type 0
HasTarget c = (is_logs c ≡ false) × (is_ordinary (or_else (path_id c) "-") ≡ true)

-- The endpoint that a function is named for, if the server has one under its path.
abbrev pub target : {Body : Type 0} → Call Body → Option Endpoint
target list_devices = some device_list
target (register_device payload) = some device_register
target (get_device_status id) = some device_status
target (delete_device id) = some device_delete
target (list_routes id) = some route_list
target (create_route payload) = some route_create
target (update_route id payload) = some route_update
target (delete_route id) = some route_delete
target (list_nat_rules id) = some nat_rule_list
target (create_nat_rule payload) = some nat_rule_create
target (update_nat_rule id payload) = some nat_rule_update
target (delete_nat_rule id) = some nat_rule_delete
target (get_ips_config id) = some ips_config_read
target (update_ips_config id payload) = some ips_config_update
target (list_ips_rules id) = some ips_rule_list
target (list_ips_alerts id) = some ips_alert_list
target (get_vpn_server_config id) = some vpn_server_config_read
target (update_vpn_server_config id payload) = some vpn_server_config_update
target (list_vpn_server_peers id) = some vpn_server_peer_list
target (create_vpn_server_peer id payload) = some vpn_server_peer_create
target (delete_vpn_server_peer id) = some vpn_server_peer_delete
target (list_vpn_client_profiles id) = some profile_list
target (create_vpn_client_profile payload) = some profile_create
target (update_vpn_client_profile id payload) = some profile_update
target (delete_vpn_client_profile id) = some profile_delete
target (connect_vpn_client id) = some connect
target (disconnect_vpn_client id) = some disconnect
target (list_qos_rules id) = some qos_rule_list
target (create_qos_rule payload) = some qos_rule_create
target (update_qos_rule id payload) = some qos_rule_update
target (delete_qos_rule id) = some qos_rule_delete
target (list_reports id) = some report_list
target (get_report id) = some report_read
target (delete_report id) = some report_delete
target list_dashboards = some dashboard_list
target c = none

encode-is_ordinary :
    (id : String) → is_ordinary id ≡ true → is_ordinary (encode_uri_component id) ≡ true
unfolding encode_uri_component
encode-is_ordinary id h = ground (
  arith,
  eq_iff (encode_uri_component id) "",
  eq_iff (encode_uri_component id) ".",
  eq_iff (encode_uri_component id) "..",
  eq_iff id "",
  eq_iff id ".",
  eq_iff id "..",
  encode_uri_component_injective id "",
  encode_uri_component_injective id ".",
  encode_uri_component_injective id "..",
)

pub split-encode : (id : String) → split (encode_uri_component id) ≡ encode_uri_component id ∷ []
split-encode id =
    split_lem (encode_uri_component id)
      (rw (encode_uri_component-lacks b'/' id refl, encode_uri_component-lacks b'?' id refl) refl)

pub split-encode_then :
    (id rest : String) (after : List String)
    → split rest ≡ "" ∷ after
    → split (append (encode_uri_component id) rest) ≡ encode_uri_component id ∷ after
split-encode_then id rest after e =
    let here : lacks b'/' (encode_uri_component id) && lacks b'?' (encode_uri_component id) ≡ true =
      rw (encode_uri_component-lacks b'/' id refl, encode_uri_component-lacks b'?' id refl) refl in
    rw (split-append (encode_uri_component id) rest here, e, append_nil (encode_uri_component id))
      refl

abbrev pub all_plain : List String → Bool
all_plain [] = true
all_plain (s ∷ ss) = is_ordinary s && lacks b'%' s && all_plain ss

module _ (r : Router) where
  open r use {decode, decode_plain, dispatch, dispatch_lem}

  segments_of :
      (before after : List String) (id : String)
      → all_plain before && all_plain after ≡ true
      → is_ordinary id ≡ true
      → All IsSegment (before ++ encode_uri_component id ∷ after)
  segments_of (s ∷ before) after id h o =
      (inl (ground arith), segments_of before after id (ground arith) o)
  segments_of [] after id h o = (inr (id, o, refl), plain_segments after h)
    where
      plain_segments : (ss : List String) → all_plain ss ≡ true → All IsSegment ss
      plain_segments [] k = tt
      plain_segments (s ∷ ss) k = (inl (ground arith), plain_segments ss (ground arith))

  plain_only : (ss : List String) → all_plain ss ≡ true → All IsSegment ss × (map decode ss ≡ ss)
  plain_only [] h = (tt, refl)
  plain_only (s ∷ ss) h =
      let (rest, same) = plain_only ss (ground arith) in
      ((inl (ground arith), rest), rw (decode_plain s (ground arith), same) refl)

  map_decode :
      (before after : List String) (x : String)
      → all_plain before && all_plain after ≡ true
      → map decode (before ++ x ∷ after) ≡ before ++ decode x ∷ after
  map_decode [] after x h = rw (plain_only after h).1 refl
  map_decode (s ∷ before) after x h =
      rw (decode_plain s (ground arith), map_decode before after x (ground arith)) refl

  -- A path of literal segments.
  pub fixed :
      (m : Method) (path : String) (ss : List String)
      → split path ≡ "" ∷ ss
      → all_plain ss ≡ true
      → dispatch routes m path ≡ first_fit routes m ("" ∷ ss)
  fixed m path ss e h =
      let (parts, same) = plain_only ss h in
      dispatch_lem routes m path ss e parts ∙ ap (λ ts. first_fit routes m ("" ∷ ts)) same

  -- A path with an identifier in it.
  pub named :
      (m : Method) (path : String) (before after : List String) (id : String)
      → split path ≡ "" ∷ before ++ encode_uri_component id ∷ after
      → all_plain before && all_plain after ≡ true
      → is_ordinary id ≡ true
      → dispatch routes m path
        ≡ first_fit routes m ("" ∷ before ++ decode (encode_uri_component id) ∷ after)
  named m path before after id e h o =
      dispatch_lem routes m path (before ++ encode_uri_component id ∷ after) e
        (segments_of before after id h o)
      ∙ ap (λ ts. first_fit routes m ("" ∷ ts))
          (map_decode before after (encode_uri_component id) h)
