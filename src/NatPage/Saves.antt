-- ===== src/NatPage/Saves.antt =====
-- What packages/portal-astro/src/components/security/NATRulesApp.vue asks of the API, and what it makes of
-- the answers.
use ngfw_sh.Prelude.{
  arith, Bool-cases, get_elem?, without, ℕ, ◌≤◌, String, ◌≡◌, refl, sym, inl, inr, Bool, true,
  false, not, Option, none, some, List, [], ◌∷◌,
}
use ngfw_sh.Prelude.Errors.{is_nil}
use ngfw_sh.Prelude.Pairs.{Pairwise, Pairwise-push, Pairwise-without, without-none}
use ngfw_sh.Client.{LogQuery, create_nat_rule, update_nat_rule, delete_nat_rule}
use ngfw_sh.Composables.{nat, create, update, remove}
use ngfw_sh.Composables.Screen
use ngfw_sh.Composables.Screen.{
  Screen, Promise, Pending, Settlement, waits, resolves, rejects, fetching, changing, values,
  failure,
}
use ngfw_sh.Composables.Loading.{is_fetch}
use ngfw_sh.NatPage.Blank.{is_blank}
use ngfw_sh.NatPage.Form.{
  PortalNatRule, NatForm, NatBody, update_of, only_enabled, validate_form, creates, renews,
}
use ngfw_sh.NatPage.{
  Task, Page, Event, loading, saving_new, saving_old, removing, toggling, reset_form, handle_add,
  handle_edit, handle_cancel, refetch, go_on, call, saved, handle_save, handle_delete,
  handle_toggle, settled_at, settle, step, run, mount, adds, saves, cancels, polls, edits, toggles,
  types, deletes, selects, settles,
}

-- A rule with a name, two addresses and two ports.
pub record IsSaveable (f : NatForm) : Type 0 where
  pub name : is_blank f.name ≡ false
  pub external_ip : is_blank f.external_ip ≡ false
  pub internal_ip : is_blank f.internal_ip ≡ false
  pub external_port : (1 ≤ f.external_port) × (f.external_port ≤ 65535)
  pub internal_port : (1 ≤ f.internal_port) × (f.internal_port ≤ 65535)

-- The call in flight that a task waits for.
abbrev pub IsAsked : Pending NatBody → Task → Type 0
IsAsked p loading = is_fetch p ≡ true
IsAsked p saving_new =
    (f : NatForm) × IsSaveable f
    × (p ≡ changing (create (creates f)) (create_nat_rule (creates f)) "Failed to create NAT rule")
IsAsked p saving_old =
    (id : String) × (f : NatForm) × IsSaveable f
    × (p
        ≡ changing (update id (renews (update_of f))) (update_nat_rule id (renews (update_of f)))
            "Failed to update NAT rule")
IsAsked p (toggling b) =
    (id : String) × (p
      ≡ changing (update id (renews (only_enabled b)))
          (update_nat_rule id (renews (only_enabled b))) "Failed to update NAT rule")
IsAsked p removing =
    (id : String) × (p ≡ changing (remove id) (delete_nat_rule id) "Failed to delete NAT rule")

validated : (f : NatForm) → is_nil (validate_form f) ≡ true → IsSaveable f
unfolding validate_form
validated f h = record {
  name = ground arith;
  external_ip = ground arith;
  internal_ip = ground arith;
  external_port = ground arith;
  internal_port = ground arith;
}

no_task :
    (qs : List (Pending NatBody)) (ts : List Task) (k : ℕ)
    → Pairwise IsAsked qs ts
    → get_elem? ts k ≡ none
    → Pairwise IsAsked qs (without ts k)
no_task qs ts k h e = rw (without-none ts k e) h

module _ {V : Type 0} where
  abbrev pub AreAsked : Page V → Type 0
  AreAsked p = Pairwise IsAsked p.rules.pending p.tasks

  refetch-AreAsked : (p : Page V) → AreAsked p → AreAsked (refetch p)
  unfolding refetch Screen.refetch
  refetch-AreAsked p h = elim (Bool-cases (Screen.idle nat p.rules.device)) [
    | inl e ↦ rw e h
    | inr e ↦ rw e (Pairwise-push IsAsked p.rules.pending p.tasks _ loading h refl)
  ]

  go_on-AreAsked : (t : Task) (o : Promise V) (p : Page V) → AreAsked p → AreAsked (go_on t o p)
  unfolding go_on reset_form
  go_on-AreAsked t waits p h = h
  go_on-AreAsked loading (resolves vs) p h = h
  go_on-AreAsked loading (rejects e) p h = h
  go_on-AreAsked saving_new (resolves vs) p h = refetch-AreAsked _ h
  go_on-AreAsked saving_old (resolves vs) p h = refetch-AreAsked _ h
  go_on-AreAsked removing (resolves vs) p h = refetch-AreAsked _ h
  go_on-AreAsked (toggling b) (resolves vs) p h = refetch-AreAsked _ h
  go_on-AreAsked saving_new (rejects e) p h = h
  go_on-AreAsked saving_old (rejects e) p h = h
  go_on-AreAsked removing (rejects e) p h = h
  go_on-AreAsked (toggling b) (rejects e) p h = h

  saved-AreAsked :
      (r : Option PortalNatRule) (p : Page V)
      → AreAsked p
      → IsSaveable p.form
      → AreAsked (saved r p)
  unfolding call Screen.change
  saved-AreAsked none p h v =
      Pairwise-push IsAsked p.rules.pending p.tasks _ saving_new h (p.form, v, refl)
  saved-AreAsked (some r) p h v =
      Pairwise-push IsAsked p.rules.pending p.tasks _ saving_old h (r.id, p.form, v, refl)

  handle_delete-AreAsked :
      (id : String) (b : Bool) (p : Page V) → AreAsked p → AreAsked (handle_delete id b p)
  unfolding handle_delete call Screen.change
  handle_delete-AreAsked id true p h =
      Pairwise-push IsAsked p.rules.pending p.tasks _ removing h (id, refl)
  handle_delete-AreAsked id false p h = h

  handle_toggle-AreAsked :
      (r : PortalNatRule) (p : Page V) → AreAsked p → AreAsked (handle_toggle r p)
  unfolding handle_toggle call Screen.change
  handle_toggle-AreAsked r p h =
      Pairwise-push IsAsked p.rules.pending p.tasks _ (toggling (not r.enabled)) h (r.id, refl)

  settled-pending :
      (q : Pending NatBody) (o : Settlement V) (s : Screen NatBody V)
      → (Screen.settled nat q o s).0.pending ≡ s.pending
  unfolding Screen.settled
  settled-pending (fetching calls) (values vs) s = refl
  settled-pending (fetching calls) (failure e) s = refl
  settled-pending (changing ch call text) (values vs) s = refl
  settled-pending (changing ch call text) (failure e) s = refl

  settled_at-pending :
      (k : ℕ) (o : Settlement V) (q : Option (Pending NatBody)) (s : Screen NatBody V)
      → get_elem? s.pending k ≡ q
      → (Screen.settled_at nat k o q s).0.pending ≡ without s.pending k
  settled_at-pending k o none s e = sym (without-none s.pending k e)
  settled_at-pending k o (some q) s e =
      settled-pending q o (record s { pending = without s.pending k })

  settle-pending :
      (k : ℕ) (o : Settlement V) (s : Screen NatBody V)
      → (Screen.settle nat k o s).0.pending ≡ without s.pending k
  unfolding Screen.settle
  settle-pending k o s = settled_at-pending k o (get_elem? s.pending k) s refl

  settle_task-AreAsked :
      (k : ℕ) (o : Settlement V) (t : Option Task) (p : Page V)
      → get_elem? p.tasks k ≡ t
      → AreAsked p
      → AreAsked
          (settled_at t (Screen.settle nat k o p.rules) (record p { tasks = without p.tasks k }))
  settle_task-AreAsked k o none p e h = no_task p.rules.pending p.tasks k h e
  settle_task-AreAsked k o (some t) p e h =
      let r = Screen.settle nat k o p.rules in
      go_on-AreAsked t r.1 (record p { tasks = without p.tasks k; rules = r.0 })
        (rw (settle-pending k o p.rules) (Pairwise-without IsAsked p.rules.pending p.tasks k h))

  handle_save-AreAsked : (p : Page V) → AreAsked p → AreAsked (handle_save p)
  unfolding handle_save
  handle_save-AreAsked p h = elim (Bool-cases (is_nil (validate_form p.form))) [
    | inl e ↦ rw e (saved-AreAsked p.editing_rule _ h (validated p.form e))
    | inr e ↦ rw e h
  ]

  step-AreAsked : (e : Event V) (p : Page V) → AreAsked p → AreAsked (step e p)
  unfolding step handle_add handle_edit handle_cancel reset_form settle
  step-AreAsked adds p h = h
  step-AreAsked saves p h = handle_save-AreAsked p h
  step-AreAsked cancels p h = h
  step-AreAsked polls p h = refetch-AreAsked p h
  step-AreAsked (edits r) p h = h
  step-AreAsked (toggles r) p h = handle_toggle-AreAsked r p h
  step-AreAsked (types f) p h = h
  step-AreAsked (deletes id b) p h = handle_delete-AreAsked id b p h
  step-AreAsked (selects device) p h = h
  step-AreAsked (settles k o) p h = settle_task-AreAsked k o (get_elem? p.tasks k) p refl h

  run_from-AreAsked : (es : List (Event V)) (p : Page V) → AreAsked p → AreAsked (run es p)
  unfolding run
  run_from-AreAsked [] p h = h
  run_from-AreAsked (e ∷ es) p h = run_from-AreAsked es (step e p) (step-AreAsked e p h)

  mount-AreAsked :
      (device : String) (q : LogQuery) (blank : List V) → AreAsked (mount device q blank)
  unfolding mount Screen.mount Screen.refetch
  mount-AreAsked device q blank = elim (Bool-cases (Screen.idle nat device)) [
    | inl e ↦ rw e tt
    | inr e ↦ rw e (refl, tt)
  ]

  -- Whatever the user does and whatever the API answers: each call in flight that saves, toggles or deletes
  -- a rule is waited for by the handler that made it; a rule is saved only with a name, two addresses and
  -- two ports of 1 to 65535; a toggle sends `enabled` alone; and all else in flight is a fetch.
  pub run-AreAsked :
      (device : String) (q : LogQuery) (blank : List V) (es : List (Event V))
      → AreAsked (run es (mount device q blank))
  run-AreAsked device q blank es =
      run_from-AreAsked es (mount device q blank) (mount-AreAsked device q blank)
