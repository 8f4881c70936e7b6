-- ===== src/Onboarding/Selector.antt =====
-- packages/portal-astro/src/components/onboarding/RouterSelector.vue: the list of routers, loaded when the
-- component is mounted and by the button under an error.
use ngfw_sh.Prelude.{
  if◌then◌else◌, String, ◌≡◌, refl, Bool, true, false, Option, none, some, List, [], ◌∷◌,
}
use ngfw_sh.Onboarding.{RouterOption}

-- How a load ends: with `success` and the routers, without it, or by an exception.
pub data Loaded : Type 0 where
  succeeds : List RouterOption → Loaded
  refused : Loaded
  throws : Loaded

pub record Selector : Type 0 where
  pub routers : List RouterOption
  pub loading : Bool
  pub error : Option String

unfoldable pub load_routers : Loaded → Selector → Selector
load_routers (succeeds routers) s = record s { routers = routers; loading = false }
load_routers refused s = record s { error = some "Failed to load router options"; loading = false }
load_routers throws s = record s {
  error = some "Network error. Please try again.";
  loading = false;
}

unfoldable pub load_all : List Loaded → Selector → Selector
unfolding load_routers
load_all [] s = s
load_all (l ∷ ls) s = load_all ls (load_routers l s)

-- What is shown: a spinner, the error with its button, or the routers.
pub data View : Type 0 where
  spinner : View
  failure : String → View
  list : List RouterOption → View

abbrev view_error : Option String → List RouterOption → View
view_error none routers = list routers
view_error (some e) routers = failure e

unfoldable pub view : Selector → View
view s = if s.loading then spinner else view_error s.error s.routers

kept_error :
    (ls : List Loaded) (s : Selector) (e : String)
    → s.loading ≡ false
    → s.error ≡ some e
    → (e' : String) × (view (load_all ls s) ≡ failure e')
unfolding view load_all
kept_error [] s e l h = (e, rw l (rw h refl))
kept_error (succeeds routers ∷ ls) s e l h = kept_error ls _ e refl h
kept_error (refused ∷ ls) s e l h = kept_error ls _ _ refl refl
kept_error (throws ∷ ls) s e l h = kept_error ls _ _ refl refl

-- Once a load has failed, the error is shown whatever the later loads bring.
refused_for_ever :
    (ls : List Loaded) (s : Selector)
    → (e : String) × (view (load_all ls (load_routers throws s)) ≡ failure e)
unfolding load_routers
refused_for_ever ls s = kept_error ls _ _ refl refl

abbrev new_selector : Selector
new_selector = record { routers = []; loading = true; error = none }

new_selector_loads :
    (routers : List RouterOption)
    → view (load_routers (succeeds routers) new_selector) ≡ list routers
unfolding view load_routers
new_selector_loads routers = refl
