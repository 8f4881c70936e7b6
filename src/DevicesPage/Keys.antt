-- ===== src/DevicesPage/Keys.antt =====
-- The key of a device that `DevicesPage` of packages/portal/src/App.tsx has registered, which the API
-- answers once.
use ngfw_sh.Prelude.{
  Bool-cases, ◌≡◌, refl, zero, suc, inl, inr, Bool, true, false, All, Option, none, some, List, [],
  ◌∷◌, ℕ, String, get_elem?, without,
}
use ngfw_sh.Fleet.{RegisterBody}
use ngfw_sh.DevicesPage.{
  DevicesBody, RegistrationBody, bare, enveloped, listed, registered, deleted, copied, timed_out,
  Page, RegistrationResult, Result, resolved, rejected, refetch, settle_listing,
  settle_registration, handle_delete, settle_deletion, copy_to_clipboard, settle_copy, fire,
  result_of,
}
use ngfw_sh.DevicesPage.Flow.{
  is_enabled, handle, Event, step, run, mount, refreshes, opens, cancels, registers, finishes,
  fires, names, models, deletes, declines, confirms, copies_text, lists, ends_registration,
  ends_deletion, ends_copy,
}
use ngfw_sh.DevicesPage.Faithful.{Registers, run-IsFaithful}

abbrev pub finishes? : Event → Bool
finishes? finishes = true
finishes? e = false

-- A device's key is on the screen.
abbrev pub Shows : RegistrationResult → Page → Type 0
Shows r p = (p.registration_result ≡ some r) × (p.registrations ≡ [])

shown_alone :
    (rs : List RegisterBody) (b : Bool) (o : Option RegistrationResult) (r : RegistrationResult)
    → Registers rs b o
    → o ≡ some r
    → rs ≡ []
shown_alone [] b o r h e = refl
shown_alone (q ∷ []) b o r (k, n, m) e = cc
shown_alone (q ∷ q' ∷ rs) b o r h e = absurd h

module _ (r : RegistrationResult) where
  listed_shows : (n : ℕ) (o : Result DevicesBody) (p : Page) → Shows r p → Shows r (listed n o p)
  listed_shows zero o p h = h
  listed_shows (suc n) (resolved ds) p h = h
  listed_shows (suc n) (rejected e) p h = h

  deleted_shows :
      (d : Option String) (o : Result (Unit {0})) (p : Page) → Shows r p → Shows r (deleted d o p)
  unfolding refetch
  deleted_shows none o p h = h
  deleted_shows (some d) (resolved a) p h = h
  deleted_shows (some d) (rejected e) p h = h

  copied_shows : (f : Option String) (w : Bool) (p : Page) → Shows r p → Shows r (copied f w p)
  copied_shows none w p h = h
  copied_shows (some f) true p h = h
  copied_shows (some f) false p h = h

  timed_out_shows : (n : ℕ) (p : Page) → Shows r p → Shows r (timed_out n p)
  timed_out_shows zero p h = h
  timed_out_shows (suc n) p h = h

  -- With no registration in flight none settles.
  registered_shows :
      (rs : List RegisterBody) (k : ℕ) (o : Result RegistrationBody) (p : Page)
      → p.registration_result ≡ some r
      → rs ≡ []
      → Shows r (registered (get_elem? rs k) o (record p { registrations = without rs k }))
  registered_shows [] k o p e h = (e, refl)
  registered_shows (q ∷ rs) k o p e h = cc

  handle_shows :
      (e : Event) (p : Page)
      → finishes? e ≡ false
      → is_enabled e p ≡ true
      → Shows r p
      → Shows r (handle e p)
  unfolding handle refetch handle_delete copy_to_clipboard settle_listing settle_registration
      settle_deletion settle_copy fire
  handle_shows refreshes p f b h = h
  handle_shows opens p f b h = h
  handle_shows cancels p f b h = h
  handle_shows registers p f b (e, h) = let c = rw e at b in cc
  handle_shows finishes p f b h = cc
  handle_shows fires p f b h = timed_out_shows p.timers p h
  handle_shows (names s) p f b h = h
  handle_shows (models s) p f b h = h
  handle_shows (deletes id) p f b h = h
  handle_shows (declines id) p f b h = h
  handle_shows (confirms id) p f b h = h
  handle_shows (copies_text field) p f b h = h
  handle_shows (lists o) p f b h = listed_shows p.listings o p h
  handle_shows (ends_registration k o) p f b (e, h) = registered_shows p.registrations k o p e h
  handle_shows (ends_deletion k o) p f b h =
      deleted_shows (get_elem? p.deletions k) o (record p { deletions = without p.deletions k }) h
  handle_shows (ends_copy k w) p f b h =
      copied_shows (get_elem? p.copies k) w (record p { copies = without p.copies k }) h

  step_shows : (e : Event) (p : Page) → finishes? e ≡ false → Shows r p → Shows r (step e p)
  unfolding step
  step_shows e p f h = elim (Bool-cases (is_enabled e p)) [
    | inl b ↦ rw b (handle_shows e p f b h)
    | inr b ↦ rw b h
  ]

  run_shows :
      (es : List Event) (p : Page)
      → All (λ e. finishes? e ≡ false) es
      → Shows r p
      → Shows r (run es p)
  unfolding run
  run_shows [] p f h = h
  run_shows (e ∷ es) p (f, fs) h = run_shows es (step e p) fs (step_shows e p f h)

settled :
    (p : Page) (rs : List RegisterBody) (b : Bool) (o : Option RegistrationResult) (k : ℕ)
    (q : RegisterBody) (r : RegistrationBody)
    → Registers rs b o
    → get_elem? rs k ≡ some q
    → Shows
        (result_of r)
        (registered (get_elem? rs k) (resolved r) (record p { registrations = without rs k }))
settled p [] b o k q r h e = cc
settled p (x ∷ []) b o zero q r h e = (refl, refl)
settled p (x ∷ []) b o (suc k) q r h e = cc
settled p (x ∷ y ∷ rs) b o k q r h e = absurd h

-- What the page shows of an answer: the device's identifier, its key and the address of a bare one, and
-- nothing of one in an envelope.
abbrev pub IsOf : RegistrationBody → RegistrationResult → Type 0
IsOf (bare r) x =
    (x.device_id ≡ some r.device.id)
    × (x.api_key ≡ some r.api_key)
    × (x.websocket_url ≡ some r.websocket_url)
IsOf (enveloped r) x = (x.device_id ≡ none) × (x.api_key ≡ none) × (x.websocket_url ≡ none)

result_of-IsOf : (b : RegistrationBody) → IsOf b (result_of b)
result_of-IsOf (bare r) = (refl, refl, refl)
result_of-IsOf (enveloped r) = (refl, refl, refl)

-- When a registration in flight succeeds while the user stays on the page, the page shows the answer's
-- identifier, key and address, and goes on to show them, whatever the user does on the page but a click on
-- Done and however other requests end. They are those of an answer that has the fields itself, as the
-- portal's type says; of an answer in an envelope, as the API sends it, all three are undefined.
pub settle_registration-run :
    (es later : List Event) (k : ℕ) (q : RegisterBody) (b : RegistrationBody)
    → get_elem? (run es mount).registrations k ≡ some q
    → All (λ e. finishes? e ≡ false) later
    → let p = run later (step (ends_registration k (resolved b)) (run es mount)) in
      (x : RegistrationResult) × (p.registration_result ≡ some x) × IsOf b x
unfolding step handle settle_registration
settle_registration-run es later k q b e f =
    let p = run es mount in
    let t = run-IsFaithful es in
    let shown =
      run_shows (result_of b) later (settle_registration k (resolved b) p) f
        (settled p p.registrations p.registering p.registration_result k q b t.0 e) in
    (result_of b, shown.0, result_of-IsOf b)
