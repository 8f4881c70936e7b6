-- ===== src/Composables/Loading.antt =====
-- When the composables of packages/portal-astro/src/composables say that they are loading.
use ngfw_sh.Prelude.{
  ◌==◌, Bool-cases, length, get_elem?, without, any, ℕ, zero, suc, ◌-◌, String, ◌≡◌, refl, ap, inl,
  inr, Bool, true, false, ◌&&◌, ◌||◌, Option, none, some, List, [], ◌∷◌, ◌++◌, arith,
}
use ngfw_sh.Client.{LogQuery, Call}
use ngfw_sh.Composables.{
  Composable, fetch_calls, Change, on_device, change_call, devices, nat, routes, qos, ddns, reports,
  dashboards, vpn_client, vpn_server, ips, logs,
}
use ngfw_sh.Composables.Screen.{
  Pending, Settlement, Screen, Event, idle, refetch, begun, change, settled, settled_at, settle,
  watched, step, run, mount, fetching, changing, values, failure, reload, changes, settles, selects,
  asks,
}

abbrev pub is_fetch : {Body : Type 0} → Pending Body → Bool
is_fetch (fetching calls) = true
is_fetch (changing ch call text) = false

-- A page that says it is loading has a fetch in flight.
abbrev pub IsFetching : {Body V : Type 0} → Screen Body V → Type 0
IsFetching s = s.loading ≡ true → any is_fetch s.pending ≡ true

module _ {Body : Type 0} where
  pub any-append :
      (ps : List (Pending Body)) (p : Pending Body)
      → any is_fetch (ps ++ p ∷ []) ≡ any is_fetch ps || is_fetch p
  any-append [] p = ground arith
  any-append (q ∷ ps) p = ground (arith, any-append ps p)

  any-without :
      (ps : List (Pending Body)) (k : ℕ) (p : Pending Body)
      → get_elem? ps k ≡ some p
      → is_fetch p ≡ false
      → any is_fetch (without ps k) ≡ any is_fetch ps
  any-without [] k p e f = refl
  any-without (q ∷ ps) zero p e f = ground arith
  any-without (q ∷ ps) (suc k) p e f = ground (arith, any-without ps k p e f)

  length-without :
      (ps : List (Pending Body)) (k : ℕ) (p : Pending Body)
      → get_elem? ps k ≡ some p
      → length ps ≡ suc (length (without ps k))
  length-without [] k p e = cc
  length-without (q ∷ ps) zero p e = refl
  length-without (q ∷ ps) (suc k) p e = ap suc (length-without ps k p e)

mount-IsFetching :
    (Body : Type 0) {V : Type 0} (c : Composable) (device : String) (q : LogQuery) (blank : List V)
    → idle c device ≡ false
    → IsFetching (mount {Body = Body} c device q blank)
unfolding mount refetch
mount-IsFetching Body c device q blank h = rw h (λ l. refl)

module _ {Body V : Type 0} (c : Composable) where
  refetch-IsFetching : (s : Screen Body V) → IsFetching s → IsFetching (refetch c s)
  unfolding refetch
  refetch-IsFetching s h = elim (Bool-cases (idle c s.device)) [
    | inl e ↦ rw e h
    | inr e ↦
        rw (e, any-append s.pending (fetching (fetch_calls c s.device s.query))) (ground arith)
  ]

  begun-IsFetching :
      (ch : Change Body) (o : Option (Call Body × String)) (s : Screen Body V)
      → IsFetching s
      → IsFetching (begun c ch o s).0
  begun-IsFetching ch none s h = h
  begun-IsFetching ch (some (call, text)) s h =
      rw (any-append s.pending (changing ch call text)) (ground arith)

  change-IsFetching :
      (ch : Change Body) (s : Screen Body V) → IsFetching s → IsFetching (change c ch s).0
  unfolding change
  change-IsFetching ch s h = elim (Bool-cases (on_device ch && s.device == "")) [
    | inl e ↦ rw e h
    | inr e ↦ rw e (begun-IsFetching ch (change_call c s.device ch) s h)
  ]

  settled-IsFetching :
      (k : ℕ) (p : Pending Body) (o : Settlement V) (s : Screen Body V)
      → get_elem? s.pending k ≡ some p
      → IsFetching s
      → IsFetching (settled c p o (record s { pending = without s.pending k })).0
  unfolding settled
  settled-IsFetching k (fetching calls) (values vs) s e h = λ l. absurd cc
  settled-IsFetching k (fetching calls) (failure m) s e h = λ l. absurd cc
  settled-IsFetching k (changing ch call text) (values vs) s e h =
      rw (any-without s.pending k (changing ch call text) e refl) h
  settled-IsFetching k (changing ch call text) (failure m) s e h =
      rw (any-without s.pending k (changing ch call text) e refl) h

  settled_at-IsFetching :
      (k : ℕ) (o : Settlement V) (p : Option (Pending Body)) (s : Screen Body V)
      → get_elem? s.pending k ≡ p
      → IsFetching s
      → IsFetching (settled_at c k o p s).0
  settled_at-IsFetching k o none s e h = h
  settled_at-IsFetching k o (some p) s e h = settled-IsFetching k p o s e h

  settle-IsFetching :
      (k : ℕ) (o : Settlement V) (s : Screen Body V) → IsFetching s → IsFetching (settle c k o s).0
  unfolding settle
  settle-IsFetching k o s h = settled_at-IsFetching k o (get_elem? s.pending k) s refl h

  watched-IsFetching :
      (d : Composable) (s : Screen Body V) → IsFetching s → IsFetching (watched c d s)
  watched-IsFetching devices s h = h
  watched-IsFetching nat s h = h
  watched-IsFetching routes s h = h
  watched-IsFetching qos s h = h
  watched-IsFetching ddns s h = h
  watched-IsFetching reports s h = h
  watched-IsFetching dashboards s h = h
  watched-IsFetching vpn_client s h = h
  watched-IsFetching vpn_server s h = h
  watched-IsFetching ips s h = h
  watched-IsFetching logs s h = refetch-IsFetching s h

  step-IsFetching : (e : Event Body V) (s : Screen Body V) → IsFetching s → IsFetching (step c e s)
  unfolding step
  step-IsFetching reload s h = refetch-IsFetching s h
  step-IsFetching (changes ch) s h = change-IsFetching ch s h
  step-IsFetching (settles k o) s h = settle-IsFetching k o s h
  step-IsFetching (selects device) s h = h
  step-IsFetching (asks q) s h = watched-IsFetching c (record s { query = q }) h

  run-IsFetching :
      (es : List (Event Body V)) (s : Screen Body V) → IsFetching s → IsFetching (run c es s)
  unfolding run
  run-IsFetching [] s h = h
  run-IsFetching (e ∷ es) s h = run-IsFetching es (step c e s) (step-IsFetching e s h)

  -- All promises in flight settle, one after another and each as it may.
  unfoldable pub settle_all : List (Settlement V) → Screen Body V → Screen Body V
  unfolding settle
  settle_all [] s = s
  settle_all (o ∷ os) s = settle_all os (settle c 0 o s).0

  settled-pending :
      (p : Pending Body) (o : Settlement V) (s : Screen Body V)
      → (settled c p o s).0.pending ≡ s.pending
  unfolding settled
  settled-pending (fetching calls) (values vs) s = refl
  settled-pending (fetching calls) (failure e) s = refl
  settled-pending (changing ch call text) (values vs) s = refl
  settled-pending (changing ch call text) (failure e) s = refl

  settled_at-pending :
      (o : Settlement V) (p : Option (Pending Body)) (s : Screen Body V)
      → get_elem? s.pending 0 ≡ p
      → length (settled_at c 0 o p s).0.pending ≡ length s.pending - 1
  settled_at-pending o none s e = none_first s.pending e
    where
      none_first : (ps : List (Pending Body)) → get_elem? ps 0 ≡ none → length ps ≡ length ps - 1
      none_first [] k = refl
      none_first (q ∷ ps) k = cc
  settled_at-pending o (some p) s e =
      rw (settled-pending p o (record s { pending = without s.pending 0 }))
        (omega (arith, length-without s.pending 0 p e))

  settle-pending :
      (o : Settlement V) (s : Screen Body V)
      → length (settle c 0 o s).0.pending ≡ length s.pending - 1
  unfolding settle
  settle-pending o s = settled_at-pending o (get_elem? s.pending 0) s refl

  settle_all-IsFetching :
      (os : List (Settlement V)) (s : Screen Body V)
      → IsFetching s
      → IsFetching (settle_all os s)
        × (length (settle_all os s).pending ≡ length s.pending - length os)
  unfolding settle_all
  settle_all-IsFetching [] s h = (h, omega arith)
  settle_all-IsFetching (o ∷ os) s h =
      let (fine, count) = settle_all-IsFetching os (settle c 0 o s).0 (settle-IsFetching 0 o s h) in
      (fine, omega (arith, count, settle-pending o s))

  none_pending :
      (s : Screen Body V)
      → IsFetching s
      → length s.pending ≡ 0
      → (s.loading ≡ false) × (s.pending ≡ [])
  none_pending s h e =
      let empty = no_length s.pending e in (not_loading s.loading (λ l. h l) empty, empty)
    where
      no_length : (ps : List (Pending Body)) → length ps ≡ 0 → ps ≡ []
      no_length [] k = refl
      no_length (p ∷ ps) k = absurd (omega arith)

      not_loading :
          (b : Bool) → (b ≡ true → any is_fetch s.pending ≡ true) → s.pending ≡ [] → b ≡ false
      not_loading false k same = refl
      not_loading true k same = absurd (ground arith)

  -- Where a device is selected or none is needed, whatever happens to a mounted page: once as many
  -- promises have settled as were in flight, with values or with failures, none is in flight and the
  -- page does not say that it is loading.
  pub settle_all-run :
      (device : String) (q : LogQuery) (blank : List V) (es : List (Event Body V))
      (os : List (Settlement V))
      → idle c device ≡ false
      → length os ≡ length (run c es (mount c device q blank)).pending
      → let s = settle_all os (run c es (mount c device q blank)) in
        (s.loading ≡ false) × (s.pending ≡ [])
  settle_all-run device q blank es os h n =
      let (fine, count) =
        settle_all-IsFetching os (run c es (mount c device q blank))
          (run-IsFetching es (mount c device q blank) (mount-IsFetching Body c device q blank h)) in
      none_pending (settle_all os (run c es (mount c device q blank))) fine
        (omega (arith, count, n))
