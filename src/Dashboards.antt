-- ===== src/Dashboards.antt =====
-- packages/schema/src/endpoints/dashboards: the dashboards that the API offers, which are constants.
pub mod Network
pub mod Traffic
pub mod Listed
pub mod Agreement
mod Tests
use ngfw_sh.Prelude.{ℕ, String, Bool, List}

pub data DashboardCategory : Type 0 where
  network_overview security_events dns_analytics wifi_performance wan_health vpn_metrics
        system_resources traffic_analysis firewall_rules qos_metrics :
      DashboardCategory

pub data WidgetType : Type 0 where
  line_chart bar_chart pie_chart gauge counter table_widget heatmap map_widget : WidgetType

-- A value of a widget's configuration.
pub data ConfigValue : Type 0 where
  text : String → ConfigValue
  number : ℕ → ConfigValue
  texts : List String → ConfigValue

pub record Widget : Type 0 where
  pub id : String
  pub type : WidgetType
  pub title : String
  pub data_source : String
  pub refresh_interval : ℕ
  pub config : List (String × ConfigValue)

pub record Dashboard : Type 0 where
  pub id : String
  pub category : DashboardCategory
  pub name : String
  pub description : String
  pub icon : String
  pub default_view : Bool
  pub widgets : List Widget

-- `dashboard.omit({ widgets: true })`.
pub record DashboardMetadata : Type 0 where
  pub id : String
  pub category : DashboardCategory
  pub name : String
  pub description : String
  pub icon : String
  pub default_view : Bool

-- What the enumeration's constructors are written as.
abbrev pub category_text : DashboardCategory → String
category_text network_overview = "network-overview"
category_text security_events = "security-events"
category_text dns_analytics = "dns-analytics"
category_text wifi_performance = "wifi-performance"
category_text wan_health = "wan-health"
category_text vpn_metrics = "vpn-metrics"
category_text system_resources = "system-resources"
category_text traffic_analysis = "traffic-analysis"
category_text firewall_rules = "firewall-rules"
category_text qos_metrics = "qos-metrics"
