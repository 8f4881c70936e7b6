-- ===== src/DevicesPage/Faithful.antt =====
-- What the indicators of `DevicesPage` of packages/portal/src/App.tsx have to do with its requests.
use ngfw_sh.Prelude.{
  get_elem?, without, Bool-cases, ◌==◌, both, ◌≡◌, refl, zero, suc, inl, inr, Bool, true, false,
  not, ◌&&◌, Option, none, some, List, [], ◌∷◌, ◌++◌, ℕ, String,
}
use ngfw_sh.Prelude.Text.{trim}
use ngfw_sh.Fleet.{RegisterBody}
use ngfw_sh.DevicesPage.{
  DevicesBody, RegistrationBody, listed, registered, deleted, copied, timed_out, registration, Page,
  RegistrationResult, Result, resolved, rejected, refetch, settle_listing, handle_register,
  settle_registration, handle_done, handle_delete, settle_deletion, copy_to_clipboard, settle_copy,
  fire,
}
use ngfw_sh.DevicesPage.Flow.{
  is_none, shows_list, shows_form, asks, is_enabled, handle, Event, step, run, mount, refreshes,
  opens, cancels, registers, finishes, fires, names, models, deletes, declines, confirms,
  copies_text, lists, ends_registration, ends_deletion, ends_copy,
}

-- The page says that it registers a device exactly while one registration is in flight. Its name is not
-- empty, and no earlier device's key is on the screen.
abbrev pub Registers : List RegisterBody → Bool → Option RegistrationResult → Type 0
Registers [] b o = b ≡ false
Registers (r ∷ []) b o = (b ≡ true) × (o ≡ none) × ((r.name == "") ≡ false)
Registers (r ∷ q ∷ rs) b o = ⊥

-- It says that it deletes exactly while one deletion is in flight.
abbrev pub Deletes : List String → Bool → Type 0
Deletes [] b = b ≡ false
Deletes (id ∷ []) b = b ≡ true
Deletes (id ∷ d ∷ ds) b = ⊥

-- With no list on the way it does not say that it loads.
abbrev pub Loads : ℕ → Bool → Type 0
Loads zero b = b ≡ false
Loads (suc n) b = Unit

abbrev pub IsFaithful : Page → Type 0
IsFaithful p =
    Registers p.registrations p.registering p.registration_result
    × Deletes p.deletions p.deleting
    × Loads p.listings p.loading

Loads-false : (n : ℕ) → Loads n false
Loads-false zero = refl
Loads-false (suc n) = tt

Registers-append :
    (rs : List RegisterBody) (b : Bool) (o : Option RegistrationResult) (r : RegisterBody)
    → Registers rs b o
    → b ≡ false
    → o ≡ none
    → (r.name == "") ≡ false
    → Registers (rs ++ r ∷ []) true o
Registers-append [] b o r h e n k = (refl, n, k)
Registers-append (q ∷ []) b o r h e n k = cc
Registers-append (q ∷ q' ∷ rs) b o r h e n k = absurd h

Deletes-append :
    (ds : List String) (b : Bool) (d : String)
    → Deletes ds b
    → b ≡ false
    → Deletes (ds ++ d ∷ []) true
Deletes-append [] b d h e = refl
Deletes-append (c ∷ []) b d h e = cc
Deletes-append (c ∷ c' ∷ ds) b d h e = absurd h

-- With a key on the screen no registration is in flight, so that the screen can change.
Registers-some :
    (rs : List RegisterBody) (b : Bool) (r : RegistrationResult) (o : Option RegistrationResult)
    → Registers rs b (some r)
    → Registers rs b o
Registers-some [] b r o h = h
Registers-some (q ∷ []) b r o (e, n, k) = cc
Registers-some (q ∷ q' ∷ rs) b r o h = absurd h

module _ (p : Page) (d : Deletes p.deletions p.deleting) (l : Loads p.listings p.loading) where
  registered-IsFaithful :
      (rs : List RegisterBody) (k : ℕ) (o : Result RegistrationBody)
      → Registers rs p.registering p.registration_result
      → IsFaithful (registered (get_elem? rs k) o (record p { registrations = without rs k }))
  registered-IsFaithful [] k o h = (h, d, l)
  registered-IsFaithful (r ∷ []) zero (resolved a) h = (refl, d, l)
  registered-IsFaithful (r ∷ []) zero (rejected e) h = (refl, d, l)
  registered-IsFaithful (r ∷ []) (suc k) o h = (h, d, l)
  registered-IsFaithful (r ∷ q ∷ rs) k o h = absurd h

deleted-IsFaithful :
    (p : Page) (ds : List String) (k : ℕ) (o : Result (Unit {0}))
    → Registers p.registrations p.registering p.registration_result
    → Deletes ds p.deleting
    → Loads p.listings p.loading
    → IsFaithful (deleted (get_elem? ds k) o (record p { deletions = without ds k }))
unfolding refetch
deleted-IsFaithful p [] k o r h l = (r, h, l)
deleted-IsFaithful p (d ∷ []) zero (resolved a) r h l = (r, refl, tt)
deleted-IsFaithful p (d ∷ []) zero (rejected e) r h l = (r, refl, l)
deleted-IsFaithful p (d ∷ []) (suc k) o r h l = (r, h, l)
deleted-IsFaithful p (d ∷ c ∷ ds) k o r h l = absurd h

listed-IsFaithful :
    (n : ℕ) (o : Result DevicesBody) (p : Page) → IsFaithful p → IsFaithful (listed n o p)
listed-IsFaithful zero o p t = t
listed-IsFaithful (suc n) (resolved ds) p (r, d, l) = (r, d, Loads-false n)
listed-IsFaithful (suc n) (rejected e) p (r, d, l) = (r, d, Loads-false n)

copied-IsFaithful :
    (f : Option String) (written : Bool) (p : Page) → IsFaithful p → IsFaithful (copied f written p)
copied-IsFaithful none written p t = t
copied-IsFaithful (some f) true p t = t
copied-IsFaithful (some f) false p t = t

timed_out-IsFaithful : (n : ℕ) (p : Page) → IsFaithful p → IsFaithful (timed_out n p)
timed_out-IsFaithful zero p t = t
timed_out-IsFaithful (suc n) p t = t

is_none-eq : (o : Option RegistrationResult) → is_none o ≡ true → o ≡ none
is_none-eq none h = refl
is_none-eq (some r) h = cc

Registers-none :
    (rs : List RegisterBody) (b : Bool) (o : Option RegistrationResult)
    → is_none o ≡ false
    → Registers rs b o
    → Registers rs b none
Registers-none rs b none e h = cc
Registers-none rs b (some r) e h = Registers-some rs b r none h

register-IsFaithful :
    (p : Page)
    → shows_list p ≡ true
    → p.registering ≡ false
    → IsFaithful p
    → IsFaithful (handle_register p)
unfolding handle_register
register-IsFaithful p s e (r, d, l) = elim (Bool-cases (trim p.form_name == "")) [
  | inl b ↦ rw b (r, d, l)
  | inr b ↦ rw b (
    Registers-append p.registrations p.registering p.registration_result (registration p) r e
        (is_none-eq p.registration_result s) b,
    d,
    l,
  )
]

false_of_not : (b : Bool) → not b ≡ true → b ≡ false
false_of_not true h = cc
false_of_not false h = refl

handle-IsFaithful :
    (e : Event) (p : Page) → is_enabled e p ≡ true → IsFaithful p → IsFaithful (handle e p)
unfolding handle refetch handle_done handle_delete copy_to_clipboard settle_listing
    settle_registration settle_deletion settle_copy fire
handle-IsFaithful refreshes p b (r, d, l) = (r, d, tt)
handle-IsFaithful opens p b t = t
handle-IsFaithful cancels p b t = t
handle-IsFaithful registers p b t =
    let c = (both (shows_form p && not p.registering) (not (trim p.form_name == "")) b).0 in
    let (f, n) = both (shows_form p) (not p.registering) c in
    register-IsFaithful p (both (shows_list p) p.show_form f).0 (false_of_not p.registering n) t
handle-IsFaithful finishes p b (r, d, l) =
    let s = false_of_not (shows_list p) b in
    (Registers-none p.registrations p.registering p.registration_result s r, d, tt)
handle-IsFaithful fires p b t = timed_out-IsFaithful p.timers p t
handle-IsFaithful (names s) p b t = t
handle-IsFaithful (models s) p b t = t
handle-IsFaithful (deletes id) p b t = t
handle-IsFaithful (declines id) p b t = t
handle-IsFaithful (confirms id) p b (r, d, l) =
    let e = false_of_not p.deleting (both (asks id p) (not p.deleting) b).1 in
    (r, Deletes-append p.deletions p.deleting id d e, l)
handle-IsFaithful (copies_text field) p b t = t
handle-IsFaithful (lists o) p b t = listed-IsFaithful p.listings o p t
handle-IsFaithful (ends_registration k o) p b (r, d, l) =
    registered-IsFaithful p d l p.registrations k o r
handle-IsFaithful (ends_deletion k o) p b (r, d, l) = deleted-IsFaithful p p.deletions k o r d l
handle-IsFaithful (ends_copy k written) p b t =
    copied-IsFaithful (get_elem? p.copies k) written (record p { copies = without p.copies k }) t

pub step-IsFaithful : (e : Event) (p : Page) → IsFaithful p → IsFaithful (step e p)
unfolding step
step-IsFaithful e p t = elim (Bool-cases (is_enabled e p)) [
  | inl b ↦ rw b (handle-IsFaithful e p b t)
  | inr b ↦ rw b t
]

run_keeps : (es : List Event) (p : Page) → IsFaithful p → IsFaithful (run es p)
unfolding run
run_keeps [] p t = t
run_keeps (e ∷ es) p t = run_keeps es (step e p) (step-IsFaithful e p t)

-- Whatever the user of the devices page does and however requests end, the page says that it registers
-- a device exactly while one registration is in flight, which has a name and leaves no key of an earlier
-- device on the screen; that it deletes exactly while one deletion is; and that it loads only while a
-- list is.
pub run-IsFaithful : (es : List Event) → IsFaithful (run es mount)
run-IsFaithful es = run_keeps es mount (refl, refl, tt)
