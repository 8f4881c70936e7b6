-- ===== src/Composables/Changes.antt =====
-- What a page of packages/portal-astro/src/composables shows after changes and after fetches that overlap.
use ngfw_sh.Prelude.{
  ◌==◌, if◌then◌else◌, or_else, length, get_elem?, without, suc, String, ◌≡◌, refl, sym, ap, ◌∙◌,
  true, false, ◌&&◌, none, some, List, [], ◌∷◌, ◌++◌,
}
use ngfw_sh.Client.{Call}
use ngfw_sh.Composables.{Composable, fetch_calls, Change, on_device, change_call}
use ngfw_sh.Composables.Screen.{
  Pending, Settlement, Promise, Screen, set_first, idle, configures, refetch, change, settled,
  settled_at, settle, fetching, changing, values, failure, waits, resolves, rejects,
}

module _ {A : Type 0} where
  get_elem?-last : (xs : List A) (x : A) → get_elem? (xs ++ x ∷ []) (length xs) ≡ some x
  get_elem?-last [] x = refl
  get_elem?-last (y ∷ xs) x = get_elem?-last xs x

  without-last : (xs : List A) (x : A) → without (xs ++ x ∷ []) (length xs) ≡ xs
  without-last [] x = refl
  without-last (y ∷ xs) x = ap (λ l. y ∷ l) (without-last xs x)

  get_elem?-last_but_one :
      (xs : List A) (x y : A) → get_elem? ((xs ++ x ∷ []) ++ y ∷ []) (length xs) ≡ some x
  get_elem?-last_but_one [] x y = refl
  get_elem?-last_but_one (z ∷ xs) x y = get_elem?-last_but_one xs x y

  length-last : (xs : List A) (x : A) → length (xs ++ x ∷ []) ≡ suc (length xs)
  length-last [] x = refl
  length-last (y ∷ xs) x = ap suc (length-last xs x)

module _ {Body V : Type 0} (c : Composable) where
  -- A page after a change, and what its promise came to.
  abbrev pub after : Change Body → String → Settlement V → Screen Body V → Screen Body V × Promise V
  after ch text (values vs) s = (
    record s { shown = if configures ch then set_first vs s.shown else s.shown; error = none },
    resolves vs,
  )
  after ch text (failure e) s = (record s { error = some (or_else e text) }, rejects e)

  settled_at-change :
      (ch : Change Body) (call : Call Body) (text : String) (o : Settlement V) (s : Screen Body V)
      → settled_at c
          (length s.pending)
          o
          (some (changing ch call text))
          (record s { error = none; pending = s.pending ++ changing ch call text ∷ [] })
        ≡ after ch text o s
  unfolding settled
  settled_at-change ch call text (values vs) s =
      rw (without-last s.pending (changing ch call text)) refl
  settled_at-change ch call text (failure e) s =
      rw (without-last s.pending (changing ch call text)) refl

  -- A change that the composable offers, with a device where it needs one, sends its one call. When that
  -- settles, its own promise settles alike; what is shown is changed by `updateConfig` alone; the error
  -- is the failure's message, or none; and the state is otherwise as before.
  settle-change :
      (ch : Change Body) (call : Call Body) (text : String) (o : Settlement V) (s : Screen Body V)
      → on_device ch && s.device == "" ≡ false
      → change_call c s.device ch ≡ some (call, text)
      → let begun_change = change c ch s in
        (begun_change.1 ≡ waits)
        × (get_elem? begun_change.0.pending (length s.pending) ≡ some (changing ch call text))
        × (settle c (length s.pending) o begun_change.0 ≡ after ch text o s)
  unfolding change settle
  settle-change ch call text o s d e =
      rw (d, e)
        (
          refl,
          get_elem?-last s.pending (changing ch call text),
          ap
                (λ p.
                  settled_at c (length s.pending) o p
                    (record s { error = none; pending = s.pending ++ changing ch call text ∷ [] }))
                (get_elem?-last s.pending (changing ch call text))
              ∙ settled_at-change ch call text o s,
        )

  abbrev fetch_of : Screen Body V → Pending Body
  fetch_of s = fetching (fetch_calls c s.device s.query)

  refetch_lem :
      (s : Screen Body V)
      → idle c s.device ≡ false
      → refetch c s
        ≡ record s { loading = true; error = none; pending = s.pending ++ fetch_of s ∷ [] }
  unfolding refetch
  refetch_lem s h = rw h refl

  settle-last :
      (calls : List (Call Body)) (vs : List V) (ps : List (Pending Body)) (s : Screen Body V)
      → s.pending ≡ ps ++ fetching calls ∷ []
      → (settle c (length ps) (values vs) s).0
        ≡ record s { shown = vs; loading = false; pending = ps }
  unfolding settle settled
  settle-last calls vs ps s e =
      rw (e, get_elem?-last ps (fetching calls), without-last ps (fetching calls)) refl

  -- The page after two fetches, the second for another device.
  abbrev pub fetched_twice : String → Screen Body V → Screen Body V
  fetched_twice device s = refetch c (record (refetch c s) { device = device })

  -- Where a fetch of one device is still in flight when another device is selected and fetched, and the
  -- second fetch is fulfilled before the first, the page shows the first device's values under the second.
  pub refetch_stale :
      (s : Screen Body V) (device : String) (older newer : List V)
      → idle c s.device ≡ false
      → idle c device ≡ false
      → let n = length s.pending in
        let twice = fetched_twice device s in
        let shows = (settle c n (values older) (settle c (suc n) (values newer) twice).0).0 in
        (get_elem? twice.pending n ≡ some (fetch_of s))
        × (shows ≡ record s { device = device; shown = older; loading = false; error = none })
  refetch_stale s device older newer h k =
      let one = s.pending ++ fetch_of s ∷ [] in
      let two = fetch_of (record s { device = device }) in
      let twice : fetched_twice device s
          ≡ record s { device = device; loading = true; error = none; pending = one ++ two ∷ [] } =
        rw (refetch_lem s h) (
          refetch_lem (record s { device = device; loading = true; error = none; pending = one })
            k) in
      let second = settle-last (fetch_calls c device s.query) newer one in
      let first = settle-last (fetch_calls c s.device s.query) older s.pending in
      rw twice (
        get_elem?-last_but_one s.pending (fetch_of s) two,
        rw (sym (length-last s.pending (fetch_of s))) (
            rw
              (second
                (record s {
                  device = device;
                  loading = true;
                  error = none;
                  pending = one ++ two ∷ [];
                })
                refl)
              (first
                (record s {
                  device = device;
                  loading = false;
                  error = none;
                  shown = newer;
                  pending = one;
                })
                refl)),
      )
