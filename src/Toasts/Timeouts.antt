-- ===== src/Toasts/Timeouts.antt =====
-- The timers of packages/portal-astro/src/composables/useToast.ts and the toasts that they remove.
use text.Mathlib.TextEquality.{eq_iff}
use ngfw_sh.Prelude.{
  ◌==◌, Bool-cases, get_elem?, without, any, All, ℕ, zero, suc, ◌<◌, String, ◌≡◌, refl, inl, inr,
  true, false, some, List, [], ◌∷◌, ◌++◌, arith,
}
use ngfw_sh.Toasts.{Toast, without_first}

-- No two toasts share an identifier.
abbrev pub Distinct : List Toast → Type 0
Distinct [] = Unit
Distinct (t ∷ ts) = (any (λ u. u.id == t.id) ts ≡ false) × Distinct ts

-- A toast with a duration has a timer.
abbrev pub AreTimed : List String → List Toast → Type 0
AreTimed timers ts = All (λ t. 0 < t.duration → any (λ id. id == t.id) timers ≡ true) ts

pub any-last :
    (id : String) (timers : List String) (x : String)
    → any (λ y. y == id) timers ≡ true
    → any (λ y. y == id) (timers ++ x ∷ []) ≡ true
any-last id [] x h = cc
any-last id (y ∷ timers) x h = ground (arith, any-last id timers x)

pub any-last_self :
    (id : String) (timers : List String) → any (λ y. y == id) (timers ++ id ∷ []) ≡ true
any-last_self id [] = ground (arith, eq_iff id id)
any-last_self id (y ∷ timers) = ground (arith, any-last_self id timers)

any-without :
    (id : String) (timers : List String) (k : ℕ) (x : String)
    → get_elem? timers k ≡ some x
    → (x == id) ≡ false
    → any (λ y. y == id) timers ≡ true
    → any (λ y. y == id) (without timers k) ≡ true
any-without id [] k x e n h = h
any-without id (y ∷ timers) zero x e n h = ground arith
any-without id (y ∷ timers) (suc k) x e n h = ground (arith, any-without id timers k x e n)

any-without_first :
    (id x : String) (ts : List Toast)
    → any (λ u. u.id == x) ts ≡ false
    → any (λ u. u.id == x) (without_first id ts) ≡ false
any-without_first id x [] h = h
any-without_first id x (t ∷ ts) h = ground (arith, any-without_first id x ts)

pub without_first-Distinct :
    (id : String) (ts : List Toast) → Distinct ts → Distinct (without_first id ts)
without_first-Distinct id [] h = h
without_first-Distinct id (t ∷ ts) (h, hs) =
    ground (arith, any-without_first id t.id ts h, without_first-Distinct id ts hs)

pub All-without_first :
    (P : Toast → Type 0) (id : String) (ts : List Toast) → All P ts → All P (without_first id ts)
All-without_first P id [] h = h
All-without_first P id (t ∷ ts) (h, hs) = elim (Bool-cases (t.id == id)) [
  | inl e ↦ rw e hs
  | inr e ↦ rw e (h, All-without_first P id ts hs)
]

-- With distinct identifiers, none of the toasts that are left has the one that was removed.
pub gone_after :
    (id : String) (ts : List Toast)
    → Distinct ts
    → any (λ u. u.id == id) (without_first id ts) ≡ false
gone_after id [] h = refl
gone_after id (t ∷ ts) (h, hs) = ground (arith, eq_iff t.id id, gone_after id ts hs)

pub fired-AreTimed :
    (timers : List String) (k : ℕ) (x : String) (ts : List Toast)
    → get_elem? timers k ≡ some x
    → any (λ u. u.id == x) ts ≡ false
    → AreTimed timers ts
    → AreTimed (without timers k) ts
fired-AreTimed timers k x [] e n h = tt
fired-AreTimed timers k x (t ∷ ts) e n (h, hs) = (
  λ d. any-without t.id timers k x e (ground (arith, eq_iff x t.id, eq_iff t.id x)) (h d),
  fired-AreTimed timers k x ts e (ground arith) hs,
)
