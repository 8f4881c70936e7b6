-- ===== src/Routing/Tests.antt =====
-- What the handlers of packages/schema/src/endpoints/routing answer.
use ngfw_sh.Prelude.{◌≡◌, refl, ℕ, ◌≤◌, String, true, arith}
use ngfw_sh.Platform.Http.{Reply, ok, refused}
use ngfw_sh.Routing.{
  StaticRoute, StaticRouteCreate, StaticRouteUpdate, valid_metric, route_create, route_update,
}

abbrev Answers : (StaticRoute → Type 0) → Reply StaticRoute → Type 0
Answers P (ok status r) = P r
Answers P (refused status message) = ⊥

-- A route that was asked for with a valid metric is answered with one, whether it is new or not.
route_create_metric :
    (id : String) (now : ℕ) (b : StaticRouteCreate)
    → valid_metric b.metric ≡ true
    → Answers (λ r. (r.metric ≤ 1000) × (r.created_at ≤ r.updated_at)) (route_create id now b)
unfolding route_create valid_metric
route_create_metric id now b h = (ground arith, omega arith)

route_update_metric :
    (id : String) (now : ℕ) (b : StaticRouteUpdate)
    → valid_metric b.metric ≡ true
    → Answers
        (λ r. (r.metric ≤ 1000) × (r.created_at ≤ r.updated_at) × (r.id ≡ id))
        (route_update id now b)
unfolding route_update valid_metric
route_update_metric id now b h = (ground arith, omega arith, refl)
