-- ===== src/Fleet/Unique.antt =====
-- What the unique indexes of the table `devices` say of its rows.
use mathlib.Core.List.{mem-cons, not-mem-nil}
use mathlib.Core.Logic.Or
use text.Mathlib.TextEquality.{eq_iff}
use ngfw_sh.Prelude.{
  ◌==◌, filter, any, All, All-prop, All-map, All-of_any, any_of_mem, String, ◌≡◌, refl, Bool, true,
  false, not, List, [], ◌∷◌, Mem, arith,
}
use ngfw_sh.Fleet.{DeviceInternal, same_device, owned_device}

-- No two rows share an id or an API key.
abbrev pub Distinct : List DeviceInternal → Type 0
Distinct [] = Unit
Distinct (r ∷ rs) = (any (same_device r) rs ≡ false) × Distinct rs

-- That a user's id names a row exactly when an API key does.
abbrev pub Agrees : String → String → DeviceInternal → DeviceInternal → Type 0
Agrees id user r x = owned_device id user x ≡ (r.api_key == x.api_key)

module _ (id user : String) (r : DeviceInternal) (mine : owned_device id user r ≡ true) where
  apart : (x : DeviceInternal) → same_device r x ≡ false → Agrees id user r x
  apart x h = ground (arith, eq_iff r.id x.id, eq_iff x.id id, eq_iff r.id id)

  apart_sym : (x : DeviceInternal) → same_device x r ≡ false → Agrees id user r x
  apart_sym x h = ground (
    arith,
    eq_iff x.id r.id,
    eq_iff x.id id,
    eq_iff r.id id,
    eq_iff x.api_key r.api_key,
    eq_iff r.api_key x.api_key,
  )

  here : Agrees id user r r
  here = ground (arith, eq_iff r.api_key r.api_key)

  -- The rows that a user's id names are those with that row's API key.
  pub owned-Agrees : (rs : List DeviceInternal) → Distinct rs → Mem r rs → All (Agrees id user r) rs
  owned-Agrees [] d m = absurd (not-mem-nil m)
  owned-Agrees (x ∷ rs) (d, ds) m =
      Or.elim (All-prop (Agrees id user r) (λ y. hlevel) (x ∷ rs)) (mem-cons.0 m)
        (λ same.
          (rw (← same) here, All-map (λ y. apart y) rs (All-of_any (same_device r) rs (rw same d))))
        λ later. (apart_sym x (any_of_mem (same_device x) rs later d), owned-Agrees rs ds later)

pub filter-Distinct :
    (p : DeviceInternal → Bool) (rs : List DeviceInternal) → Distinct rs → Distinct (filter p rs)
filter-Distinct p [] d = tt
filter-Distinct p (r ∷ rs) (d, ds) =
    ground (arith, any-filter (same_device r) p rs d, filter-Distinct p rs ds)
  where
    any-filter :
        (q p : DeviceInternal → Bool) (xs : List DeviceInternal)
        → any q xs ≡ false
        → any q (filter p xs) ≡ false
    any-filter q p [] h = refl
    any-filter q p (x ∷ xs) h = ground (arith, any-filter q p xs)

-- Without the rows of one API key, the others are found as before.
pub any-filter_key :
    (key k : String) (p : DeviceInternal → Bool) (rs : List DeviceInternal)
    → (key == k) ≡ false
    → All (λ x. p x ≡ (key == x.api_key)) rs
    → any (λ x. x.api_key == k) (filter (λ x. not (p x)) rs) ≡ any (λ x. x.api_key == k) rs
any-filter_key key k p [] h a = refl
any-filter_key key k p (x ∷ rs) h (e, a) =
    ground
      (arith, any-filter_key key k p rs h a, eq_iff key x.api_key, eq_iff x.api_key k, eq_iff key k)
