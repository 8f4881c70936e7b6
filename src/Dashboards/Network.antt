-- ===== src/Dashboards/Network.antt =====
-- The first five dashboards of packages/schema/src/endpoints/dashboards/dashboardRead.ts.
use ngfw_sh.Prelude.{true, false, [], ◌∷◌}
use ngfw_sh.Dashboards.{
  Dashboard, network_overview, security_events, dns_analytics, wifi_performance, wan_health,
  line_chart, bar_chart, pie_chart, gauge, counter, table_widget, heatmap, text, number, texts,
}

abbrev pub network_overview_dashboard : Dashboard
network_overview_dashboard = record {
  id = "network-overview";
  category = network_overview;
  name = "Network Overview";
  description = "Real-time network status, connected devices, and bandwidth usage";
  icon = "network";
  default_view = true;
  widgets =
      record {
        id = "wan-status";
        type = gauge;
        title = "WAN Status";
        data_source = "/api/network/wan/status";
        refresh_interval = 5000;
        config = ("unit", text "Mbps") ∷ ("max", number 1000) ∷ [];
      }
      ∷ record {
        id = "connected-devices";
        type = counter;
        title = "Connected Devices";
        data_source = "/api/network/devices";
        refresh_interval = 10000;
        config = ("icon", text "devices") ∷ [];
      }
      ∷ record {
        id = "bandwidth-chart";
        type = line_chart;
        title = "Bandwidth Usage (24h)";
        data_source = "/api/network/bandwidth/history";
        refresh_interval = 30000;
        config = ("timeRange", text "24h") ∷ ("yAxisUnit", text "Mbps") ∷ [];
      }
      ∷ record {
        id = "top-talkers";
        type = table_widget;
        title = "Top Bandwidth Consumers";
        data_source = "/api/network/top-talkers";
        refresh_interval = 15000;
        config =
            ("columns", texts ("device" ∷ "ip" ∷ "bandwidth" ∷ [])) ∷ ("limit", number 10) ∷ [];
      }
      ∷ [];
}

abbrev pub security_events_dashboard : Dashboard
security_events_dashboard = record {
  id = "security-events";
  category = security_events;
  name = "Security Events";
  description = "IPS alerts, blocked threats, and security policy violations";
  icon = "shield";
  default_view = false;
  widgets =
      record {
        id = "threat-counter";
        type = counter;
        title = "Threats Blocked (24h)";
        data_source = "/api/security/threats/count";
        refresh_interval = 10000;
        config = ("icon", text "shield") ∷ ("color", text "red") ∷ [];
      }
      ∷ record {
        id = "threat-types";
        type = pie_chart;
        title = "Threat Types";
        data_source = "/api/security/threats/by-type";
        refresh_interval = 30000;
        config = [];
      }
      ∷ record {
        id = "recent-events";
        type = table_widget;
        title = "Recent Security Events";
        data_source = "/api/security/events/recent";
        refresh_interval = 5000;
        config =
            ("columns", texts ("timestamp" ∷ "type" ∷ "source" ∷ "action" ∷ []))
            ∷ ("limit", number 20)
            ∷ [];
      }
      ∷ record {
        id = "attack-heatmap";
        type = heatmap;
        title = "Attack Sources (Geo)";
        data_source = "/api/security/attacks/geo";
        refresh_interval = 60000;
        config = [];
      }
      ∷ [];
}

abbrev pub dns_analytics_dashboard : Dashboard
dns_analytics_dashboard = record {
  id = "dns-analytics";
  category = dns_analytics;
  name = "DNS Analytics";
  description = "DNS queries, top domains, blocked queries, and filtering statistics";
  icon = "dns";
  default_view = false;
  widgets =
      record {
        id = "dns-queries";
        type = counter;
        title = "DNS Queries (24h)";
        data_source = "/api/dns/queries/count";
        refresh_interval = 10000;
        config = ("icon", text "dns") ∷ [];
      }
      ∷ record {
        id = "blocked-queries";
        type = counter;
        title = "Blocked Queries";
        data_source = "/api/dns/blocked/count";
        refresh_interval = 10000;
        config = ("icon", text "block") ∷ ("color", text "red") ∷ [];
      }
      ∷ record {
        id = "top-domains";
        type = bar_chart;
        title = "Top Queried Domains";
        data_source = "/api/dns/top-domains";
        refresh_interval = 30000;
        config = ("limit", number 10) ∷ [];
      }
      ∷ record {
        id = "query-types";
        type = pie_chart;
        title = "Query Types";
        data_source = "/api/dns/query-types";
        refresh_interval = 30000;
        config = [];
      }
      ∷ [];
}

abbrev pub wifi_performance_dashboard : Dashboard
wifi_performance_dashboard = record {
  id = "wifi-performance";
  category = wifi_performance;
  name = "WiFi Performance";
  description = "WiFi signal strength, channel utilization, and client connections";
  icon = "wifi";
  default_view = false;
  widgets =
      record {
        id = "wifi-clients";
        type = counter;
        title = "Connected Clients";
        data_source = "/api/wifi/clients/count";
        refresh_interval = 5000;
        config = ("icon", text "wifi") ∷ [];
      }
      ∷ record {
        id = "channel-util";
        type = gauge;
        title = "Channel Utilization";
        data_source = "/api/wifi/channel/utilization";
        refresh_interval = 10000;
        config = ("unit", text "%") ∷ ("max", number 100) ∷ [];
      }
      ∷ record {
        id = "signal-strength";
        type = bar_chart;
        title = "Signal Strength Distribution";
        data_source = "/api/wifi/signal/distribution";
        refresh_interval = 30000;
        config = [];
      }
      ∷ record {
        id = "client-table";
        type = table_widget;
        title = "WiFi Clients";
        data_source = "/api/wifi/clients";
        refresh_interval = 10000;
        config =
            ("columns", texts ("device" ∷ "mac" ∷ "signal" ∷ "bandwidth" ∷ []))
            ∷ ("limit", number 20)
            ∷ [];
      }
      ∷ [];
}

abbrev pub wan_health_dashboard : Dashboard
wan_health_dashboard = record {
  id = "wan-health";
  category = wan_health;
  name = "WAN Health";
  description = "WAN uptime, latency, packet loss, and connection quality metrics";
  icon = "globe";
  default_view = false;
  widgets =
      record {
        id = "wan-uptime";
        type = gauge;
        title = "WAN Uptime";
        data_source = "/api/wan/uptime";
        refresh_interval = 30000;
        config = ("unit", text "%") ∷ ("max", number 100) ∷ [];
      }
      ∷ record {
        id = "latency";
        type = line_chart;
        title = "Latency (24h)";
        data_source = "/api/wan/latency/history";
        refresh_interval = 30000;
        config = ("yAxisUnit", text "ms") ∷ [];
      }
      ∷ record {
        id = "packet-loss";
        type = line_chart;
        title = "Packet Loss";
        data_source = "/api/wan/packet-loss";
        refresh_interval = 30000;
        config = ("yAxisUnit", text "%") ∷ [];
      }
      ∷ record {
        id = "speed-test";
        type = gauge;
        title = "Current Speed";
        data_source = "/api/wan/speed";
        refresh_interval = 60000;
        config = ("unit", text "Mbps") ∷ ("max", number 1000) ∷ [];
      }
      ∷ [];
}
