-- ===== src/Routing.antt =====
-- packages/schema/src/endpoints/routing: the handlers for static routes, none of which keeps one. Zod
-- puts the default of a field for a missing one, also in a body whose fields may all be missing. A
-- difference of times is 0 where the source's would be negative, in the first days of 1970 alone.
mod Tests
use ngfw_sh.Prelude.{leb, or_else, ℕ, ◌-◌, String, Bool, true, Option, none, some, List, [], ◌∷◌}
use ngfw_sh.Platform.Http.{Reply, ok}

pub record StaticRoute : Type 0 where
  pub id : String
  pub destination : String
  pub gateway : String
  pub interface : String
  pub metric : ℕ
  pub description : Option String
  pub enabled : Bool
  pub created_at : ℕ
  pub updated_at : ℕ

pub data RouteType : Type 0 where
  static connected kernel default_route : RouteType

pub record RouteEntry : Type 0 where
  pub destination : String
  pub gateway : String
  pub genmask : String
  pub flags : String
  pub metric : ℕ
  pub interface : String
  pub type : RouteType

-- The bodies of a creation and of an update, as they are sent.
pub record StaticRouteCreate : Type 0 where
  pub destination : String
  pub gateway : String
  pub interface : String
  pub metric : Option ℕ
  pub description : Option String
  pub enabled : Option Bool

pub record StaticRouteUpdate : Type 0 where
  pub destination : Option String
  pub gateway : Option String
  pub interface : Option String
  pub metric : Option ℕ
  pub description : Option String
  pub enabled : Option Bool

-- The bounds of a metric, which a missing one meets by its default.
unfoldable pub valid_metric : Option ℕ → Bool
valid_metric metric = leb (or_else metric 100) 1000

-- `id` is what is made of `Math.random()`, and `now` what `Date.now()` returns.
unfoldable pub route_create : String → ℕ → StaticRouteCreate → Reply StaticRoute
route_create id now b = ok 201 record {
  id = id;
  destination = b.destination;
  gateway = b.gateway;
  interface = b.interface;
  metric = or_else b.metric 100;
  description = b.description;
  enabled = or_else b.enabled true;
  created_at = now;
  updated_at = now;
}

-- The defaults of the schema, which are those of the handler, come first.
unfoldable pub route_update : String → ℕ → StaticRouteUpdate → Reply StaticRoute
route_update id now b = ok 200 record {
  id = id;
  destination = or_else b.destination "192.168.100.0/24";
  gateway = or_else b.gateway "192.168.1.1";
  interface = or_else b.interface "eth1";
  metric = or_else b.metric 100;
  description = some (or_else b.description "Updated route");
  enabled = or_else b.enabled true;
  created_at = now - 86400000;
  updated_at = now;
}

unfoldable pub route_delete : String → Reply (Unit {0})
route_delete id = ok 200 tt

abbrev pub static_routes : ℕ → List StaticRoute
static_routes now =
    record {
      id = "route-1";
      destination = "192.168.100.0/24";
      gateway = "192.168.1.1";
      interface = "eth1";
      metric = 100;
      description = some "Guest network route";
      enabled = true;
      created_at = now - 86400000;
      updated_at = now - 86400000;
    }
    ∷ record {
      id = "route-2";
      destination = "10.0.0.0/8";
      gateway = "192.168.1.254";
      interface = "wg0";
      metric = 200;
      description = some "VPN route";
      enabled = true;
      created_at = now - 172800000;
      updated_at = now - 172800000;
    }
    ∷ []

abbrev pub kernel_routes : List RouteEntry
kernel_routes =
    record {
      destination = "0.0.0.0";
      gateway = "203.0.113.1";
      genmask = "0.0.0.0";
      flags = "UG";
      metric = 100;
      interface = "eth0";
      type = default_route;
    }
    ∷ record {
      destination = "192.168.1.0";
      gateway = "0.0.0.0";
      genmask = "255.255.255.0";
      flags = "U";
      metric = 0;
      interface = "eth1";
      type = connected;
    }
    ∷ []

unfoldable pub route_list : ℕ → Reply (List StaticRoute × List RouteEntry)
route_list now = ok 200 (static_routes now, kernel_routes)
