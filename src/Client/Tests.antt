-- ===== src/Client/Tests.antt =====
-- packages/portal-astro/src/lib/api/client.ts with a router that decodes nothing, and a namespace in memory.
use ngfw_sh.Prelude.{ℕ, suc, String, ◌≡◌, refl, ap, Option, some, List, [], ◌∷◌, map, arith}
use ngfw_sh.Prelude.Hex.{hex}
use ngfw_sh.Platform.Http.{Reply, Outcome, ok, value}
use ngfw_sh.Platform.Memory.{memory_kv}
use ngfw_sh.Auth.{token_cache_key, Session, verified, authenticated}
use ngfw_sh.Routes.{split, Route, Method, Endpoint, put, routes, first_fit, nat_rule_update}
use ngfw_sh.Client.{update_nat_rule, call_request}
use ngfw_sh.Client.Uri.{encode_uri_component}
use ngfw_sh.Client.Reach.{Router}
use ngfw_sh.Client.Arrival.{dispatch-call_request}
use ngfw_sh.Client.Answers.{result, fulfilled}
use ngfw_sh.Client.Session.{call_api, call_api_lem}

encode_test : encode_uri_component "a/b é" ≡ "a%2Fb%20%C3%A9"
unfolding encode_uri_component
encode_test = refl

map_same : (ss : List String) → map (λ s. s) ss ≡ ss
map_same [] = refl
map_same (s ∷ ss) = ap (λ l. s ∷ l) (map_same ss)

abbrev dispatch_first : List Route → Method → String → Option Endpoint
dispatch_first rs m path = first_fit rs m (split path)

abbrev plain_router : Router
plain_router = record {
  decode = λ s. s;
  decode_plain = λ s h. refl;
  dispatch = dispatch_first;
  dispatch_lem = λ rs m path ss e h. rw (e, map_same ss) refl;
}

-- The rule's identifier has a slash in it.
dispatch-call_request_example : dispatch_first routes put "/nat/rules/a%2Fb" ≡ some nat_rule_update
unfolding call_request
dispatch-call_request_example =
    dispatch-call_request plain_router (λ b. b) (λ d b. b) (λ n. "") (λ ps. "")
      (update_nat_rule "a/b" "{}") (refl, refl)

abbrev digest : String → List ℕ
digest s = []

abbrev verify : ℕ → String → Option String
verify now token = some "ann"

-- A handler that counts its calls.
abbrev next : String → ℕ → Outcome (Reply String) × ℕ
next user n = (value (ok 200 user), suc n)

abbrev build : String → List (ℕ × String)
build message = (7001, message) ∷ []

abbrev text : ℕ → String
text n = ""

abbrev fresh : Session memory_kv digest verify next
fresh = record { sessions = []; world = 0 }

call_api_lem_example : call_api memory_kv digest verify next build text 5 (some "abc") fresh ≡ (
  fulfilled (result "ann"),
  record { sessions = (token_cache_key digest "abc", ("ann", some 305)) ∷ []; world = 1 },
)
unfolding authenticated verified token_cache_key hex
call_api_lem_example =
    call_api_lem memory_kv digest verify next build text 5 (some "abc") fresh
      (omega arith, omega arith)
