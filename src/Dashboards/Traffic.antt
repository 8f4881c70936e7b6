-- ===== src/Dashboards/Traffic.antt =====
-- The other five dashboards of packages/schema/src/endpoints/dashboards/dashboardRead.ts.
use ngfw_sh.Prelude.{false, [], ◌∷◌}
use ngfw_sh.Dashboards.{
  Dashboard, vpn_metrics, system_resources, traffic_analysis, firewall_rules, qos_metrics,
  line_chart, bar_chart, pie_chart, gauge, counter, table_widget, text, number, texts,
}

abbrev pub vpn_metrics_dashboard : Dashboard
vpn_metrics_dashboard = record {
  id = "vpn-metrics";
  category = vpn_metrics;
  name = "VPN Metrics";
  description = "VPN tunnel status, throughput, connected clients, and data transfer";
  icon = "vpn";
  default_view = false;
  widgets =
      record {
        id = "vpn-clients";
        type = counter;
        title = "Connected VPN Clients";
        data_source = "/api/vpn/clients/count";
        refresh_interval = 10000;
        config = ("icon", text "vpn") ∷ [];
      }
      ∷ record {
        id = "vpn-throughput";
        type = line_chart;
        title = "VPN Throughput";
        data_source = "/api/vpn/throughput";
        refresh_interval = 10000;
        config = ("yAxisUnit", text "Mbps") ∷ [];
      }
      ∷ record {
        id = "vpn-clients-table";
        type = table_widget;
        title = "VPN Clients";
        data_source = "/api/vpn/clients";
        refresh_interval = 15000;
        config =
            ("columns", texts ("user" ∷ "ip" ∷ "connected_at" ∷ "data_sent" ∷ "data_received" ∷ []))
            ∷ ("limit", number 20)
            ∷ [];
      }
      ∷ [];
}

abbrev pub system_resources_dashboard : Dashboard
system_resources_dashboard = record {
  id = "system-resources";
  category = system_resources;
  name = "System Resources";
  description = "CPU usage, memory utilization, storage, and temperature monitoring";
  icon = "cpu";
  default_view = false;
  widgets =
      record {
        id = "cpu-usage";
        type = gauge;
        title = "CPU Usage";
        data_source = "/api/system/cpu";
        refresh_interval = 5000;
        config = ("unit", text "%") ∷ ("max", number 100) ∷ [];
      }
      ∷ record {
        id = "memory-usage";
        type = gauge;
        title = "Memory Usage";
        data_source = "/api/system/memory";
        refresh_interval = 5000;
        config = ("unit", text "%") ∷ ("max", number 100) ∷ [];
      }
      ∷ record {
        id = "temperature";
        type = gauge;
        title = "Temperature";
        data_source = "/api/system/temperature";
        refresh_interval = 10000;
        config = ("unit", text "°C") ∷ ("max", number 100) ∷ [];
      }
      ∷ record {
        id = "storage";
        type = gauge;
        title = "Storage Usage";
        data_source = "/api/system/storage";
        refresh_interval = 60000;
        config = ("unit", text "%") ∷ ("max", number 100) ∷ [];
      }
      ∷ [];
}

abbrev pub traffic_analysis_dashboard : Dashboard
traffic_analysis_dashboard = record {
  id = "traffic-analysis";
  category = traffic_analysis;
  name = "Traffic Analysis";
  description = "Protocol breakdown, application usage, and traffic patterns";
  icon = "chart";
  default_view = false;
  widgets =
      record {
        id = "protocol-breakdown";
        type = pie_chart;
        title = "Protocol Breakdown";
        data_source = "/api/traffic/protocols";
        refresh_interval = 30000;
        config = [];
      }
      ∷ record {
        id = "app-usage";
        type = bar_chart;
        title = "Top Applications";
        data_source = "/api/traffic/applications";
        refresh_interval = 30000;
        config = ("limit", number 10) ∷ [];
      }
      ∷ record {
        id = "traffic-history";
        type = line_chart;
        title = "Traffic History (7d)";
        data_source = "/api/traffic/history";
        refresh_interval = 60000;
        config = ("timeRange", text "7d") ∷ ("yAxisUnit", text "GB") ∷ [];
      }
      ∷ [];
}

abbrev pub firewall_rules_dashboard : Dashboard
firewall_rules_dashboard = record {
  id = "firewall-rules";
  category = firewall_rules;
  name = "Firewall Rules";
  description = "Rule hit counts, blocked connections, and policy effectiveness";
  icon = "firewall";
  default_view = false;
  widgets =
      record {
        id = "blocked-connections";
        type = counter;
        title = "Blocked Connections (24h)";
        data_source = "/api/firewall/blocked/count";
        refresh_interval = 10000;
        config = ("icon", text "block") ∷ ("color", text "red") ∷ [];
      }
      ∷ record {
        id = "rule-hits";
        type = table_widget;
        title = "Top Firewall Rules";
        data_source = "/api/firewall/rules/hits";
        refresh_interval = 30000;
        config = ("columns", texts ("rule" ∷ "hits" ∷ "action" ∷ [])) ∷ ("limit", number 20) ∷ [];
      }
      ∷ record {
        id = "block-reasons";
        type = pie_chart;
        title = "Block Reasons";
        data_source = "/api/firewall/block-reasons";
        refresh_interval = 30000;
        config = [];
      }
      ∷ [];
}

abbrev pub qos_metrics_dashboard : Dashboard
qos_metrics_dashboard = record {
  id = "qos-metrics";
  category = qos_metrics;
  name = "QoS Metrics";
  description = "Traffic shaping stats, bandwidth allocation, and queue performance";
  icon = "priority";
  default_view = false;
  widgets =
      record {
        id = "bandwidth-allocation";
        type = pie_chart;
        title = "Bandwidth Allocation";
        data_source = "/api/qos/bandwidth";
        refresh_interval = 10000;
        config = [];
      }
      ∷ record {
        id = "queue-stats";
        type = bar_chart;
        title = "Queue Statistics";
        data_source = "/api/qos/queues";
        refresh_interval = 10000;
        config = [];
      }
      ∷ record {
        id = "priority-traffic";
        type = line_chart;
        title = "Priority Traffic";
        data_source = "/api/qos/priority";
        refresh_interval = 15000;
        config = ("yAxisUnit", text "Mbps") ∷ [];
      }
      ∷ [];
}
