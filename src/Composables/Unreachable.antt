-- ===== src/Composables/Unreachable.antt =====
-- The calls of packages/portal-astro/src/composables/useDDNS.ts at the routes of the API worker.
use ngfw_sh.Prelude.{All, ℕ, String, ◌≡◌, refl, ◌∙◌, Option, none, some, List, [], ◌∷◌, ◌++◌}
use ngfw_sh.Routes.{Endpoint, routes}
use ngfw_sh.Client.{LogQuery, Call, call_request}
use ngfw_sh.Client.Reach.{Router, HasTarget, target}
use ngfw_sh.Client.Arrival.{dispatch-call_request}
use ngfw_sh.Composables.{
  Composable, connect, disconnect, fetch_calls, Change, change_call, ddns, create, configure,
  create_peer, update, remove, look, status_of, force, delete_peer,
}

abbrev called : {Body : Type 0} → Option (Call Body × String) → List (Call Body)
called none = []
called (some (call, text)) = call ∷ []

-- Every call that a composable makes for a device: those of a fetch, and the one of a change.
unfoldable pub all_calls :
    {Body : Type 0} → Composable → String → LogQuery → Change Body → List (Call Body)
all_calls c device q ch = fetch_calls c device q ++ called (change_call c device ch)

module _ {Body : Type 0} (r : Router) (stringify : Body → String)
    (with_device : String → Body → Body) (show : ℕ → String)
    (query_string : List (String × String) → String) where
  -- What the API worker dispatches a call to.
  abbrev pub arrives_at : Call Body → Option Endpoint
  arrives_at c =
      let q = call_request stringify with_device show query_string c in
      r.dispatch routes q.method q.path

  arrive :
      (cs : List (Call Body))
      → All HasTarget cs
      → All (λ c. target c ≡ none) cs
      → All (λ c. arrives_at c ≡ none) cs
  arrive [] h t = tt
  arrive (c ∷ cs) (h, hs) (t, ts) =
      (dispatch-call_request r stringify with_device show query_string c h ∙ t, arrive cs hs ts)

  no_targets :
      (device : String) (q : LogQuery) (ch : Change Body)
      → All (λ c. target c ≡ none) (all_calls ddns device q ch)
  unfolding all_calls
  no_targets device q (create payload) = (refl, (refl, tt))
  no_targets device q (update id payload) = (refl, (refl, tt))
  no_targets device q (remove id) = (refl, (refl, tt))
  no_targets device q (force id) = (refl, (refl, tt))
  no_targets device q (configure payload) = (refl, tt)
  no_targets device q (create_peer payload) = (refl, tt)
  no_targets device q (look id) = (refl, tt)
  no_targets device q (status_of id) = (refl, tt)
  no_targets device q (connect id) = (refl, tt)
  no_targets device q (disconnect id) = (refl, tt)
  no_targets device q (delete_peer id) = (refl, tt)

  -- No call of the page for dynamic DNS, with an identifier that is none of "", "." and "..", is
  -- dispatched to an endpoint of the API worker.
  pub ddns_unreachable :
      (device : String) (q : LogQuery) (ch : Change Body)
      → All HasTarget (all_calls ddns device q ch)
      → All (λ c. arrives_at c ≡ none) (all_calls ddns device q ch)
  ddns_unreachable device q ch h = arrive (all_calls ddns device q ch) h (no_targets device q ch)
