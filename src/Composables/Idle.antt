-- ===== src/Composables/Idle.antt =====
-- The composables of packages/portal-astro/src/composables where no device is selected at first.
use ngfw_sh.Prelude.{
  ◌==◌, Bool-cases, get_elem?, without, any, All, ℕ, zero, suc, String, ◌≡◌, refl, inl, inr, Bool,
  true, false, ◌&&◌, Option, none, some, List, [], ◌∷◌, arith,
}
use ngfw_sh.Client.{LogQuery, Call}
use ngfw_sh.Composables.{
  Composable, needs_device, Change, on_device, change_call, devices, nat, routes, qos, ddns,
  reports, dashboards, vpn_client, vpn_server, ips, logs,
}
use ngfw_sh.Composables.Screen.{
  Pending, Settlement, Screen, Event, refetch, begun, change, settled, settled_at, settle, watched,
  step, run, mount, fetching, changing, values, failure, reload, changes, settles, selects, asks,
}
use ngfw_sh.Composables.Loading.{is_fetch, any-append}

-- It says that it is loading, with no fetch in flight.
abbrev pub IsStuck : {Body V : Type 0} → Screen Body V → Type 0
IsStuck s = (s.loading ≡ true) × (any is_fetch s.pending ≡ false)

abbrev pub is_reload : {Body V : Type 0} → Event Body V → Bool
is_reload reload = true
is_reload e = false

module _ {Body : Type 0} where
  none-without :
      (ps : List (Pending Body)) (k : ℕ)
      → any is_fetch ps ≡ false
      → any is_fetch (without ps k) ≡ false
  none-without [] k h = h
  none-without (p ∷ ps) zero h = ground arith
  none-without (p ∷ ps) (suc k) h = ground (arith, none-without ps k)

  none_at :
      (ps : List (Pending Body)) (k : ℕ) (p : Pending Body)
      → any is_fetch ps ≡ false
      → get_elem? ps k ≡ some p
      → is_fetch p ≡ false
  none_at [] k p h e = cc
  none_at (q ∷ ps) zero p h e = ground arith
  none_at (q ∷ ps) (suc k) p h e = none_at ps k p (ground arith) e

module _ {Body V : Type 0} (c : Composable) where
  begun-IsStuck :
      (ch : Change Body) (o : Option (Call Body × String)) (s : Screen Body V)
      → IsStuck s
      → IsStuck (begun c ch o s).0
  begun-IsStuck ch none s h = h
  begun-IsStuck ch (some (call, text)) s (l, h) =
      (l, rw (any-append s.pending (changing ch call text), h) refl)

  change-IsStuck : (ch : Change Body) (s : Screen Body V) → IsStuck s → IsStuck (change c ch s).0
  unfolding change
  change-IsStuck ch s h = elim (Bool-cases (on_device ch && s.device == "")) [
    | inl e ↦ rw e h
    | inr e ↦ rw e (begun-IsStuck ch (change_call c s.device ch) s h)
  ]

  settled_at-IsStuck :
      (k : ℕ) (o : Settlement V) (p : Option (Pending Body)) (s : Screen Body V)
      → get_elem? s.pending k ≡ p
      → IsStuck s
      → IsStuck (settled_at c k o p s).0
  unfolding settled
  settled_at-IsStuck k o none s e h = h
  settled_at-IsStuck k o (some (fetching calls)) s e (l, h) =
      cc (none_at s.pending k (fetching calls) h e)
  settled_at-IsStuck k (values vs) (some (changing ch call text)) s e (l, h) =
      (l, none-without s.pending k h)
  settled_at-IsStuck k (failure m) (some (changing ch call text)) s e (l, h) =
      (l, none-without s.pending k h)

  settle-IsStuck :
      (k : ℕ) (o : Settlement V) (s : Screen Body V) → IsStuck s → IsStuck (settle c k o s).0
  unfolding settle
  settle-IsStuck k o s h = settled_at-IsStuck k o (get_elem? s.pending k) s refl h

  watched_same : (d : Composable) (s : Screen Body V) → needs_device d ≡ true → watched c d s ≡ s
  watched_same devices s h = refl
  watched_same nat s h = refl
  watched_same routes s h = refl
  watched_same qos s h = refl
  watched_same ddns s h = refl
  watched_same reports s h = refl
  watched_same dashboards s h = refl
  watched_same vpn_client s h = refl
  watched_same vpn_server s h = refl
  watched_same ips s h = refl
  watched_same logs s h = cc

  step-IsStuck :
      (e : Event Body V) (s : Screen Body V)
      → needs_device c ≡ true
      → is_reload e ≡ false
      → IsStuck s
      → IsStuck (step c e s)
  unfolding step
  step-IsStuck reload s d r h = absurd cc
  step-IsStuck (changes ch) s d r h = change-IsStuck ch s h
  step-IsStuck (settles k o) s d r h = settle-IsStuck k o s h
  step-IsStuck (selects device) s d r h = h
  step-IsStuck (asks q) s d r h = rw (watched_same c (record s { query = q }) d) h

  run-IsStuck :
      (es : List (Event Body V)) (s : Screen Body V)
      → needs_device c ≡ true
      → All (λ e. is_reload e ≡ false) es
      → IsStuck s
      → IsStuck (run c es s)
  unfolding run
  run-IsStuck [] s d r h = h
  run-IsStuck (e ∷ es) s d (r, rs) h = run-IsStuck es (step c e s) d rs (step-IsStuck e s d r h)

  -- A composable that needs a device and is mounted without one says that it is loading, with no fetch
  -- in flight, as long as its caller does not refetch: also after a device has been selected.
  pub run-mount_without_device :
      (q : LogQuery) (blank : List V) (es : List (Event Body V))
      → needs_device c ≡ true
      → All (λ e. is_reload e ≡ false) es
      → IsStuck (run c es (mount c "" q blank))
  unfolding mount refetch
  run-mount_without_device q blank es d r =
      run-IsStuck es (mount c "" q blank) d r (rw d (refl, refl))
