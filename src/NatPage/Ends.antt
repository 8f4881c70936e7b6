-- ===== src/NatPage/Ends.antt =====
-- How a save ends in packages/portal-astro/src/components/security/NATRulesApp.vue.
use ngfw_sh.Prelude.{or_else, any, String, ◌≡◌, Bool, true, false, Option, [], ◌∷◌, ◌++◌}
use ngfw_sh.Composables.{nat}
use ngfw_sh.Composables.Screen
use ngfw_sh.Composables.Screen.{Screen, Settlement, set_first}
use ngfw_sh.Composables.Loading.{is_fetch}
use ngfw_sh.Toasts.{success, error}
use ngfw_sh.NatPage.{
  Task, Page, loading, saving_new, saving_old, removing, toggling, empty_form, succeeded, failed,
}

abbrev pub is_save : Task → Bool
is_save loading = false
is_save saving_new = true
is_save saving_old = true
is_save removing = false
is_save (toggling b) = false

module _ {V : Type 0} where
  -- The page after a save that the API has made.
  abbrev pub IsSaved : Task → Page V → Page V → Type 0
  IsSaved t p p' =
      (p'.show_modal ≡ false)
      × (p'.form ≡ empty_form p.rules.device)
      × (p'.notes ≡ p.notes ++ (success, succeeded t) ∷ [])
      × (Screen.idle nat p.rules.device ≡ false → any is_fetch p'.rules.pending ≡ true)

  -- The page after one that it has refused, or that never reached it.
  abbrev pub IsKept : Task → Option String → Page V → Page V → Type 0
  IsKept t e p p' =
      (p'.show_modal ≡ p.show_modal)
      × (p'.form ≡ p.form)
      × (p'.editing_rule ≡ p.editing_rule)
      × (p'.rules.shown ≡ p.rules.shown)
      × (p'.notes ≡ p.notes ++ (error, or_else e (failed t)) ∷ [])
