-- ===== src/Prelude/Tests.antt =====
-- Boolean tests on numbers and texts, the conditional, and defaults for missing values.
use Prim.Native.Nat.{ℕ, compare, Ordering}
use Prim.Native.String.{String}
use mathlib.Core.Path.{◌≡◌, refl}
use mathlib.Core.Logic.{◌⊎◌, inl, inr}
use mathlib.Core.Bool.{Bool, true, false, ◌&&◌}
use mathlib.Core.Option.{Option, none, some}
use text.Mathlib.Text.{◌==◌ as text_eq}

abbrev pub ltb : ℕ → ℕ → Bool
ltb a b = elim (compare a b) [ Ordering.lt ↦ true | _ ↦ false ]

abbrev pub leb : ℕ → ℕ → Bool
leb a b = elim (compare a b) [ Ordering.gt ↦ false | _ ↦ true ]

abbrev pub eqb : ℕ → ℕ → Bool
eqb a b = elim (compare a b) [ Ordering.eq ↦ true | _ ↦ false ]

-- `===` on strings.
infix 50 ◌==◌
abbrev pub ◌==◌ : String → String → Bool
s == t = text_eq s t

infix 1 if◌then◌else◌
abbrev pub if◌then◌else◌ {ℓ} : {A : Type ℓ} → Bool → A → A → A
if true then x else y = x
if false then x else y = y

pub Bool-cases : (b : Bool) → (b ≡ true) ⊎ (b ≡ false)
Bool-cases true = inl refl
Bool-cases false = inr refl

pub both : (a b : Bool) → a && b ≡ true → (a ≡ true) × (b ≡ true)
both true true h = (refl, refl)
both true false h = (refl, h)
both false b h = (h, cc)

module _ {ℓ} {A : Type ℓ} where
  pub Option-cases : (o : Option A) → (o ≡ none) ⊎ ((a : A) × (o ≡ some a))
  Option-cases none = inl refl
  Option-cases (some a) = inr (a, refl)

  -- `x ?? d`: `none` stands for both `null` and `undefined`.
  abbrev pub or_else : Option A → A → A
  or_else none d = d
  or_else (some a) d = a

  -- A field that takes the value given for it, if there is one, and otherwise stays as it was.
  abbrev pub Takes : Option A → A → A → Type ℓ
  Takes none old new = new ≡ old
  Takes (some a) old new = new ≡ a

  pub Takes-or_else : (given : Option A) (old : A) → Takes given old (or_else given old)
  Takes-or_else none old = refl
  Takes-or_else (some a) old = refl

  -- A value that is the given one, if there is one.
  abbrev pub Given : Option A → A → Type ℓ
  Given none new = Unit
  Given (some a) new = new ≡ a

  pub Given-or_else : (given : Option A) (old : A) → Given given (or_else given old)
  Given-or_else none old = tt
  Given-or_else (some a) old = refl

-- `x ? e : d` and `x || d` on a string that may be missing: "" counts as missing.
abbrev pub truthy : Option String → Option String
truthy none = none
truthy (some s) = if text_eq s "" then none else some s

pub truthy-eq : (s : String) → (truthy (some s) ≡ none) ⊎ (truthy (some s) ≡ some s)
truthy-eq s = elim (Bool-cases (text_eq s "")) [ inl e ↦ inl (rw e) | inr e ↦ inr (rw e) ]
