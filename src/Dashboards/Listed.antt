-- ===== src/Dashboards/Listed.antt =====
-- The handlers of packages/schema/src/endpoints/dashboards.
use ngfw_sh.Prelude.{
  String, Bool, true, false, ◌==◌, any, if◌then◌else◌, Option, none, some, List, [], ◌∷◌,
}
use ngfw_sh.Platform.Http.{errors, Reply, ok, refused}
use ngfw_sh.Dashboards.{
  Dashboard, DashboardMetadata, network_overview, security_events, dns_analytics, wifi_performance,
  wan_health, vpn_metrics, system_resources, traffic_analysis, firewall_rules, qos_metrics,
}
use ngfw_sh.Dashboards.Network.{
  network_overview_dashboard, security_events_dashboard, dns_analytics_dashboard,
  wifi_performance_dashboard, wan_health_dashboard,
}
use ngfw_sh.Dashboards.Traffic.{
  vpn_metrics_dashboard, system_resources_dashboard, traffic_analysis_dashboard,
  firewall_rules_dashboard, qos_metrics_dashboard,
}

-- The properties of the object `dashboards` that are its own, under their names.
abbrev pub dashboards : List (String × Dashboard)
dashboards =
    ("network-overview", network_overview_dashboard)
    ∷ ("security-events", security_events_dashboard)
    ∷ ("dns-analytics", dns_analytics_dashboard)
    ∷ ("wifi-performance", wifi_performance_dashboard)
    ∷ ("wan-health", wan_health_dashboard)
    ∷ ("vpn-metrics", vpn_metrics_dashboard)
    ∷ ("system-resources", system_resources_dashboard)
    ∷ ("traffic-analysis", traffic_analysis_dashboard)
    ∷ ("firewall-rules", firewall_rules_dashboard)
    ∷ ("qos-metrics", qos_metrics_dashboard)
    ∷ []

-- The names that every object has from its prototype, with values that are no dashboards.
abbrev prototype_names : List String
prototype_names =
    "constructor" ∷ "__defineGetter__" ∷ "__defineSetter__" ∷ "hasOwnProperty" ∷ "__lookupGetter__"
    ∷ "__lookupSetter__" ∷ "isPrototypeOf" ∷ "propertyIsEnumerable" ∷ "toString" ∷ "valueOf"
    ∷ "__proto__" ∷ "toLocaleString" ∷ []

unfoldable pub is_inherited : String → Bool
is_inherited id = any (λ name. name == id) prototype_names

abbrev pub own : String → List (String × Dashboard) → Option Dashboard
own id [] = none
own id ((key, d) ∷ es) = if key == id then some d else own id es

abbrev pub found : Bool → Option Dashboard → Reply (Option Dashboard)
found inherited (some d) = ok 200 (some d)
found true none = ok 200 none
found false none = refused 404 (errors ((404, "Dashboard not found") ∷ []))

-- A result that is no dashboard is `none`.
unfoldable pub dashboard_read : String → Reply (Option Dashboard)
dashboard_read id = found (is_inherited id) (own id dashboards)

-- The items of the answer of `DashboardList.handle`.
abbrev pub listed : List DashboardMetadata
listed =
    record {
      id = "network-overview";
      category = network_overview;
      name = "Network Overview";
      description = "Real-time network status, connected devices, and bandwidth usage";
      icon = "network";
      default_view = true;
    }
    ∷ record {
      id = "security-events";
      category = security_events;
      name = "Security Events";
      description = "IPS alerts, blocked threats, and security policy violations";
      icon = "shield";
      default_view = false;
    }
    ∷ record {
      id = "dns-analytics";
      category = dns_analytics;
      name = "DNS Analytics";
      description = "DNS queries, top domains, blocked queries, and filtering statistics";
      icon = "dns";
      default_view = false;
    }
    ∷ record {
      id = "wifi-performance";
      category = wifi_performance;
      name = "WiFi Performance";
      description = "WiFi signal strength, channel utilization, and client connections";
      icon = "wifi";
      default_view = false;
    }
    ∷ record {
      id = "wan-health";
      category = wan_health;
      name = "WAN Health";
      description = "WAN uptime, latency, packet loss, and connection quality metrics";
      icon = "globe";
      default_view = false;
    }
    ∷ record {
      id = "vpn-metrics";
      category = vpn_metrics;
      name = "VPN Metrics";
      description = "VPN tunnel status, throughput, connected clients, and data transfer";
      icon = "vpn";
      default_view = false;
    }
    ∷ record {
      id = "system-resources";
      category = system_resources;
      name = "System Resources";
      description = "CPU usage, memory utilization, storage, and temperature monitoring";
      icon = "cpu";
      default_view = false;
    }
    ∷ record {
      id = "traffic-analysis";
      category = traffic_analysis;
      name = "Traffic Analysis";
      description = "Protocol breakdown, application usage, and traffic patterns";
      icon = "chart";
      default_view = false;
    }
    ∷ record {
      id = "firewall-rules";
      category = firewall_rules;
      name = "Firewall Rules";
      description = "Rule hit counts, blocked connections, and policy effectiveness";
      icon = "firewall";
      default_view = false;
    }
    ∷ record {
      id = "qos-metrics";
      category = qos_metrics;
      name = "QoS Metrics";
      description = "Traffic shaping stats, bandwidth allocation, and queue performance";
      icon = "priority";
      default_view = false;
    }
    ∷ []

unfoldable pub dashboard_list : Reply (List DashboardMetadata)
dashboard_list = ok 200 listed
