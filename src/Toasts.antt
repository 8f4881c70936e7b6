-- ===== src/Toasts.antt =====
-- packages/portal-astro/src/composables/useToast.ts: the notifications that all pages share. A toast's
-- identifier is made of the time and a random number; a timer fires once, whenever it may.
pub mod Expiry
pub mod Timeouts
mod Tests
use ngfw_sh.Prelude.{
  ltb, ◌==◌, if◌then◌else◌, or_else, get_elem?, without, ℕ, String, Option, none, some, List, [],
  ◌∷◌, ◌++◌,
}

pub data ToastType : Type 0 where
  success error warning info : ToastType

-- `duration` is in milliseconds, and not negative; showToast treats a negative one as it does 0.
pub record Toast : Type 0 where
  pub id : String
  pub type : ToastType
  pub message : String
  pub duration : ℕ

-- The toasts, and the timers that are set, each with the toast that it removes.
pub record Toasts : Type 0 where
  pub toasts : List Toast
  pub timers : List String

abbrev pub default_duration : ℕ
default_duration = 3000

-- `id` is what `Date.now()` and `Math.random()` make.
unfoldable pub show_toast : String → ToastType → String → Option ℕ → Toasts → Toasts
show_toast id type message given s =
    let duration = or_else given default_duration in
    record {
      toasts =
          s.toasts ++ record { id = id; type = type; message = message; duration = duration } ∷ [];
      timers = if ltb 0 duration then s.timers ++ id ∷ [] else s.timers;
    }

-- `findIndex` and `splice`.
abbrev pub without_first : String → List Toast → List Toast
without_first id [] = []
without_first id (t ∷ ts) = if t.id == id then ts else t ∷ without_first id ts

unfoldable pub remove_toast : String → Toasts → Toasts
remove_toast id s = record s { toasts = without_first id s.toasts }

abbrev pub fired : Option String → Toasts → Toasts
fired none s = s
fired (some id) s = remove_toast id s

-- The k-th of the timers fires.
unfoldable pub fire : ℕ → Toasts → Toasts
unfolding remove_toast
fire k s = fired (get_elem? s.timers k) (record s { timers = without s.timers k })

-- `success`, `error`, `warning` and `info` show a toast of their type.
pub data Event : Type 0 where
  shows : String → ToastType → String → Option ℕ → Event
  removes : String → Event
  fires : ℕ → Event

unfoldable pub step : Event → Toasts → Toasts
unfolding show_toast remove_toast fire
step (shows id type message duration) s = show_toast id type message duration s
step (removes id) s = remove_toast id s
step (fires k) s = fire k s

unfoldable pub run : List Event → Toasts → Toasts
unfolding step
run [] s = s
run (e ∷ es) s = run es (step e s)

abbrev pub no_toasts : Toasts
no_toasts = record { toasts = []; timers = [] }
