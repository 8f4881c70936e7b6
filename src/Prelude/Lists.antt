-- ===== src/Prelude/Lists.antt =====
-- Lists under Boolean tests, and the library's membership and permutations applied to them.
use Prim.Native.Nat.{ℕ, suc, zero, ◌≤◌}
use mathlib.Core.Path.{◌≡◌, refl, ap}
use mathlib.Core.Logic.{inl, inr}
use mathlib.Core.Logic.Or
use mathlib.Core.HLevel.{×_prop}
use mathlib.Core.Bool.{Bool, true, false, not, ◌||◌}
use mathlib.Core.Option.{Option, none, some}
use mathlib.Core.List.{List, map, [], ◌∷◌, Mem, Perm, mem-cons, not-mem-nil, mem-cons_self}
use mathlib.Core.List.{mem-cons_of_mem, length as list_length}
use mathlib.Core.List.Perm
use native.Mathlib.Omega.{arith}
use ngfw_sh.Prelude.Tests.{if◌then◌else◌, Bool-cases}

module _ {ℓ} {A : Type ℓ} where
  abbrev pub length : List A → ℕ
  length [] = 0
  length (x ∷ xs) = suc (length xs)

  abbrev pub take : ℕ → List A → List A
  take zero xs = []
  take (suc n) [] = []
  take (suc n) (x ∷ xs) = x ∷ take n xs

  abbrev pub drop : ℕ → List A → List A
  drop zero xs = xs
  drop (suc n) [] = []
  drop (suc n) (x ∷ xs) = drop n xs

  abbrev pub filter : (A → Bool) → List A → List A
  filter p [] = []
  filter p (x ∷ xs) = if p x then x ∷ filter p xs else filter p xs

  abbrev pub head? : List A → Option A
  head? [] = none
  head? (x ∷ xs) = some x

  abbrev pub get_elem? : List A → ℕ → Option A
  get_elem? [] k = none
  get_elem? (x ∷ xs) zero = some x
  get_elem? (x ∷ xs) (suc k) = get_elem? xs k

  abbrev pub without : List A → ℕ → List A
  without [] k = []
  without (x ∷ xs) zero = xs
  without (x ∷ xs) (suc k) = x ∷ without xs k

  abbrev pub any : (A → Bool) → List A → Bool
  any p [] = false
  any p (x ∷ xs) = p x || any p xs

  abbrev pub All {κ} : (A → Type κ) → List A → Type κ
  All P [] = Unit
  All P (x ∷ xs) = P x × All P xs

  pub All-prop {κ} : (P : A → Type κ) → ((x : A) → IsProp (P x)) → (xs : List A) → IsProp (All P xs)
  All-prop P h [] = hlevel
  All-prop P h (x ∷ xs) = ×_prop (h x) (All-prop P h xs)

  pub All-map {κ μ} :
      {P : A → Type κ} {Q : A → Type μ}
      → ((x : A) → P x → Q x)
      → (xs : List A) → All P xs
      → All Q xs
  All-map f [] h = tt
  All-map f (x ∷ xs) (p, h) = (f x p, All-map f xs h)

  pub mem-filter :
      (p : A → Bool) (xs : List A) {x : A} → Mem x (filter p xs) → Mem x xs × (p x ≡ true)
  mem-filter p [] m = absurd (not-mem-nil m)
  mem-filter p (y ∷ xs) {x} m = elim (Bool-cases (p y)) [
    | inl e ↦
        Or.elim (×_prop (hlevel) (hlevel)) (mem-cons.0 (rw e at m))
          (λ same. rw same (mem-cons_self, e)) (weaken (mem-filter p xs {x = x}))
    | inr e ↦ weaken (mem-filter p xs {x = x}) (rw e at m)
  ]
    where
      weaken :
          (Mem x (filter p xs) → Mem x xs × (p x ≡ true))
          → Mem x (filter p xs)
          → Mem x (y ∷ xs) × (p x ≡ true)
      weaken ih k = let (i, e) = ih k in (mem-cons_of_mem y i, e)

  -- What the first row of an answer tells of the table, and what an empty answer tells.
  pub first_mem : {l rs : List A} {r : A} → Perm rs l → head? rs ≡ some r → Mem r l
  first_mem {rs = rs} {r = r} h e = (Perm.mem_iff h).0 (member rs e)
    where
      member : (xs : List A) → head? xs ≡ some r → Mem r xs
      member [] d = cc
      member (y ∷ xs) d = let same : y ≡ r = cc in rw same mem-cons_self

  pub first_some :
      (p : A → Bool) (xs : List A) {rs : List A} {r : A}
      → Perm rs (filter p xs)
      → head? rs ≡ some r
      → Mem r xs × (p r ≡ true)
  first_some p xs h e = mem-filter p xs (first_mem h e)

  pub first_none :
      (p : A → Bool) (xs : List A) {rs : List A}
      → Perm rs (filter p xs)
      → head? rs ≡ none
      → filter p xs ≡ []
  first_none p xs {rs} h e = empty rs h e
    where
      empty : (l : List A) → Perm l (filter p xs) → head? l ≡ none → filter p xs ≡ []
      empty [] k d = Perm.eq-nil (Perm.symm k)
      empty (y ∷ l) k d = cc

  pub All-of_any : (p : A → Bool) (xs : List A) → any p xs ≡ false → All (λ x. p x ≡ false) xs
  All-of_any p [] h = tt
  All-of_any p (x ∷ xs) h = ground (arith, All-of_any p xs)

  pub any_of_mem : (p : A → Bool) (xs : List A) {x : A} → Mem x xs → any p xs ≡ false → p x ≡ false
  any_of_mem p [] m h = absurd (not-mem-nil m)
  any_of_mem p (y ∷ xs) m h =
      Or.elim (hlevel) (mem-cons.0 m) (λ same. rw same (ground arith))
        λ later. any_of_mem p xs later (ground arith)

  pub filter-not : (p : A → Bool) (xs : List A) → filter p (filter (λ x. not (p x)) xs) ≡ []
  filter-not p [] = refl
  filter-not p (x ∷ xs) = ground (arith, filter-not p xs)

  pub cons_of_perm :
      {x : A} {xs : List A} (l : List A) → Perm (x ∷ xs) l → (y : A) × (ys : List A) × (l ≡ y ∷ ys)
  cons_of_perm [] p = cc (Perm.eq-nil p)
  cons_of_perm (y ∷ ys) p = (y, ys, refl)

  pub map-eq-nil {κ} : {B : Type κ} (f : A → B) (xs : List A) → map f xs ≡ [] → xs ≡ []
  map-eq-nil f [] h = refl
  map-eq-nil f (x ∷ xs) h = cc

  pub All-mem {κ} :
      (P : A → Type κ)
      → ((x : A) → IsProp (P x))
      → (xs : List A) {x : A} → All P xs
      → Mem x xs
      → P x
  All-mem P h [] a m = absurd (not-mem-nil m)
  All-mem P h (y ∷ xs) {x = x} (p, a) m =
      Or.elim (h x) (mem-cons.0 m) (λ same. rw same p) (All-mem P h xs a)

  -- An answer of one row.
  pub head?-perm : IsSet A → (rs : List A) {x : A} → Perm rs (x ∷ []) → head? rs ≡ some x
  head?-perm set [] p = cc (Perm.eq-nil (Perm.symm p))
  head?-perm set (r ∷ rs) {x = x} p =
      Or.elim (hlevel (set r x)) (mem-cons.0 ((Perm.mem_iff p).0 mem-cons_self))
        (λ same. ap some same) λ later. absurd (not-mem-nil later)

  pub length-take : (n : ℕ) (xs : List A) → length (take n xs) ≤ n
  length-take zero xs = omega arith
  length-take (suc n) [] = omega arith
  length-take (suc n) (x ∷ xs) = omega (arith, length-take n xs)

  length_native : (xs ys : List A) → list_length xs ≡ list_length ys → length xs ≡ length ys
  length_native [] [] e = refl
  length_native [] (y ∷ ys) e = cc
  length_native (x ∷ xs) [] e = cc
  length_native (x ∷ xs) (y ∷ ys) e = ap suc (length_native xs ys cc)

  pub length-perm : {xs ys : List A} → Perm xs ys → length xs ≡ length ys
  length-perm {xs} {ys} p = length_native xs ys (Perm.length-eq p)
