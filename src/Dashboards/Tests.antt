-- ===== src/Dashboards/Tests.antt =====
-- Reads of the dashboards at concrete identifiers.
use ngfw_sh.Prelude.{[], ◌∷◌, none, some, ◌≡◌, refl}
use ngfw_sh.Platform.Http.{errors, ok, refused}
use ngfw_sh.Dashboards.Network.{wan_health_dashboard}
use ngfw_sh.Dashboards.Listed.{dashboard_read, dashboard_list, is_inherited}
use ngfw_sh.Dashboards.Agreement.{Agrees, lists, dashboard_read-dashboard_list}

dashboard_read-dashboard_list_example :
    Agrees "wan-health" (lists dashboard_list "wan-health") (dashboard_read "wan-health")
dashboard_read-dashboard_list_example = dashboard_read-dashboard_list "wan-health"

wan_health_test : dashboard_read "wan-health" ≡ ok 200 (some wan_health_dashboard)
unfolding dashboard_read is_inherited
wan_health_test = refl

missing_test :
    dashboard_read "Wan-Health" ≡ refused 404 (errors ((404, "Dashboard not found") ∷ []))
unfolding dashboard_read is_inherited
missing_test = refl

constructor_test : dashboard_read "constructor" ≡ ok 200 none
unfolding dashboard_read is_inherited
constructor_test = refl
