-- ===== src/Toasts/Expiry.antt =====
-- The notifications of packages/portal-astro/src/composables/useToast.ts over a whole session.
use ngfw_sh.Prelude.{
  ltb, ◌==◌, Bool-cases, or_else, get_elem?, without, any, All, ℕ, arith, ◌<◌, String, ◌≡◌, refl,
  inl, inr, true, false, Option, none, some, List, [], ◌∷◌, ◌++◌,
}
use text.Mathlib.TextEquality.{eq_iff}
use ngfw_sh.Prelude.Pairs.{without-none}
use ngfw_sh.Toasts.{
  default_duration, ToastType, Toast, Toasts, show_toast, without_first, remove_toast, fired, fire,
  Event, step, run, no_toasts, shows, removes, fires,
}
use ngfw_sh.Toasts.Timeouts.{
  Distinct, AreTimed, any-last, any-last_self, without_first-Distinct, All-without_first,
  gone_after, fired-AreTimed,
}

abbrev IsSound : Toasts → Type 0
IsSound s = Distinct s.toasts × AreTimed s.timers s.toasts

-- A new toast has an identifier that no toast on the screen has.
abbrev pub IsFresh : Event → Toasts → Type 0
IsFresh (shows id type message duration) s = any (λ t. t.id == id) s.toasts ≡ false
IsFresh (removes id) s = Unit
IsFresh (fires k) s = Unit

abbrev pub AreFresh : List Event → Toasts → Type 0
AreFresh [] s = Unit
AreFresh (e ∷ es) s = IsFresh e s × AreFresh es (step e s)

-- As many timers fire, the oldest first, as the list has.
unfoldable pub fire_all : List String → Toasts → Toasts
fire_all [] s = s
fire_all (x ∷ timers) s = fire_all timers (fire 0 s)

any-push :
    (x : String) (ts : List Toast) (t : Toast)
    → (t.id == x) ≡ false
    → any (λ u. u.id == x) ts ≡ false
    → any (λ u. u.id == x) (ts ++ t ∷ []) ≡ false
any-push x [] t e h = ground arith
any-push x (u ∷ ts) t e h = ground (arith, any-push x ts t e)

Distinct-push :
    (ts : List Toast) (t : Toast)
    → any (λ u. u.id == t.id) ts ≡ false
    → Distinct ts
    → Distinct (ts ++ t ∷ [])
Distinct-push [] t n d = (refl, tt)
Distinct-push (u ∷ ts) t n (h, hs) = (
  any-push u.id ts t (ground (arith, eq_iff u.id t.id, eq_iff t.id u.id)) h,
  Distinct-push ts t (ground arith) hs,
)

AreTimed-push :
    (timers : List String) (ts : List Toast) (t : Toast)
    → AreTimed timers ts
    → (0 < t.duration → any (λ id. id == t.id) timers ≡ true)
    → AreTimed timers (ts ++ t ∷ [])
AreTimed-push timers [] t h n = (n, tt)
AreTimed-push timers (u ∷ ts) t (h, hs) n = (h, AreTimed-push timers ts t hs n)

AreTimed-last :
    (timers : List String) (x : String) (ts : List Toast)
    → AreTimed timers ts
    → AreTimed (timers ++ x ∷ []) ts
AreTimed-last timers x [] h = tt
AreTimed-last timers x (t ∷ ts) (h, hs) =
    (λ d. any-last t.id timers x (h d), AreTimed-last timers x ts hs)

show_toast-IsSound :
    (id : String) (type : ToastType) (message : String) (given : Option ℕ) (s : Toasts)
    → any (λ t. t.id == id) s.toasts ≡ false
    → IsSound s
    → IsSound (show_toast id type message given s)
unfolding show_toast
show_toast-IsSound id type message given s n (d, h) =
    elim (Bool-cases (ltb 0 (or_else given default_duration))) [
      | inl e ↦ rw e (
        Distinct-push s.toasts _ n d,
        AreTimed-push (s.timers ++ id ∷ []) s.toasts _ (AreTimed-last s.timers id s.toasts h)
            (λ p. any-last_self id s.timers),
      )
      | inr e ↦
          rw e
            (Distinct-push s.toasts _ n d, AreTimed-push s.timers s.toasts _ h (λ p. ground arith))
    ]

remove_toast-IsSound : (id : String) (s : Toasts) → IsSound s → IsSound (remove_toast id s)
unfolding remove_toast
remove_toast-IsSound id s (d, h) =
    (without_first-Distinct id s.toasts d, All-without_first _ id s.toasts h)

fired-IsSound :
    (k : ℕ) (s : Toasts) (found : Option String)
    → get_elem? s.timers k ≡ found
    → IsSound s
    → IsSound (fired found (record s { timers = without s.timers k }))
unfolding remove_toast
fired-IsSound k s none e (d, h) = rw (without-none s.timers k e) (d, h)
fired-IsSound k s (some x) e (d, h) = (
  without_first-Distinct x s.toasts d,
  fired-AreTimed s.timers k x (without_first x s.toasts) e (gone_after x s.toasts d)
      (All-without_first _ x s.toasts h),
)

step-IsSound : (e : Event) (s : Toasts) → IsFresh e s → IsSound s → IsSound (step e s)
unfolding step fire
step-IsSound (shows id type message duration) s n h =
    show_toast-IsSound id type message duration s n h
step-IsSound (removes id) s n h = remove_toast-IsSound id s h
step-IsSound (fires k) s n h = fired-IsSound k s (get_elem? s.timers k) refl h

run-IsSound : (es : List Event) (s : Toasts) → AreFresh es s → IsSound s → IsSound (run es s)
unfolding run
run-IsSound [] s f h = h
run-IsSound (e ∷ es) s (f, fs) h = run-IsSound es (step e s) fs (step-IsSound e s f h)

AreTimed-none : (ts : List Toast) → AreTimed [] ts → All (λ t. t.duration ≡ 0) ts
AreTimed-none [] h = tt
AreTimed-none (t ∷ ts) (h, hs) = (ground arith, AreTimed-none ts hs)

fire_all_lem :
    (timers : List String) (ts : List Toast)
    → IsSound (record { toasts = ts; timers = timers })
    → let s = fire_all timers (record { toasts = ts; timers = timers }) in
      (s.timers ≡ []) × All (λ t. t.duration ≡ 0) s.toasts
unfolding fire_all fire remove_toast
fire_all_lem [] ts (d, h) = (refl, AreTimed-none ts h)
fire_all_lem (x ∷ timers) ts h =
    fire_all_lem timers (without_first x ts)
      (fired-IsSound 0 (record { toasts = ts; timers = x ∷ timers }) (some x) refl h)

-- After any shows, removals and timeouts, in any order and with fresh identifiers, once the timers that are
-- set have all fired, no timer is left and only toasts that were shown with duration 0 are on the screen.
pub fire_all-run :
    (es : List Event)
    → AreFresh es no_toasts
    → let s = run es no_toasts in
      ((fire_all s.timers s).timers ≡ []) × All (λ t. t.duration ≡ 0) ((fire_all s.timers s).toasts)
fire_all-run es f =
    fire_all_lem ((run es no_toasts).timers) ((run es no_toasts).toasts)
      (run-IsSound es no_toasts f (tt, tt))
