-- ===== src/Platform/Database.antt =====
-- D1, which the handlers only call: tables of rows under the statements that they prepare. `none`
-- is a rejected promise. The laws are SQL's: a query returns the rows that its WHERE clause picks,
-- in no promised order; a statement changes the rows that it names and no others.
use ngfw_sh.Prelude.{
  eqb, if◌then◌else◌, length, take, drop, filter, any, ℕ, ◌≤◌, ◌<◌, ◌≡◌, ◌⊎◌, Bool, false, not,
  Option, some, List, [], ◌∷◌, map, Perm,
}

-- The rows after an UPDATE.
abbrev pub updated {ℓ} : {R : Type ℓ} → (R → Bool) → (R → R) → List R → List R
updated p f rs = map (λ r. if p r then f r else r) rs

-- What is bound to LIMIT and OFFSET: a number below zero is no bound and no offset.
pub data Bound : Type 0 where
  up_to : ℕ → Bound
  below_zero : Bound

abbrev pub limited {ℓ} : {R : Type ℓ} → Bound → List R → List R
limited (up_to n) rs = take n rs
limited below_zero rs = rs

abbrev pub offset_by {ℓ} : {R : Type ℓ} → Bound → List R → List R
offset_by (up_to n) rs = drop n rs
offset_by below_zero rs = rs

-- `ORDER BY a DESC, b DESC`.
abbrev pub Descends {ℓ} : {R : Type ℓ} → (R → ℕ × ℕ) → R → R → Type 0
Descends by r x = ((by x).0 < (by r).0) ⊎ (((by x).0 ≡ (by r).0) × ((by x).1 ≤ (by r).1))

abbrev pub Descending {ℓ} : {R : Type ℓ} → (R → ℕ × ℕ) → List R → Type 0
Descending by [] = Unit
Descending by (r ∷ []) = Unit
Descending by (r ∷ x ∷ rs) = Descends by r x × Descending by (x ∷ rs)

pub record Database : Type 1 where
  pub Table : Type 0 → Type 0
  pub rows : {R : Type 0} → Table R → List R
  pub select : {R : Type 0} → (R → Bool) → Table R → Option (List R)
  -- The first argument says which pairs of rows the table's unique indexes keep apart.
  pub insert : {R : Type 0} → (R → R → Bool) → R → Table R → Option (Table R)
  pub update : {R : Type 0} → (R → Bool) → (R → R) → Table R → Option (Table R)
  pub delete : {R : Type 0} → (R → Bool) → Table R → Option (Table R)
  -- An INSERT that lets the table choose the integer key, and the key that it chose.
  pub insert_next : {R : Type 0} → (R → ℕ) → (ℕ → R) → Table R → Option (Table R × ℕ)
  pub count : {R : Type 0} → (R → Bool) → Table R → Option ℕ
  -- A query with ORDER BY, LIMIT and OFFSET.
  pub page : {R : Type 0} → (R → Bool) → (R → ℕ × ℕ) → Bound → Bound → Table R → Option (List R)
  pub select_lem :
      {R : Type 0} (p : R → Bool) (t : Table R) {rs : List R}
      → select p t ≡ some rs
      → Perm rs (filter p (rows t))
  pub insert_lem :
      {R : Type 0} (clash : R → R → Bool) (r : R) (t : Table R) {t' : Table R}
      → insert clash r t ≡ some t'
      → (rows t' ≡ r ∷ rows t) × (any (clash r) (rows t) ≡ false)
  pub update_lem :
      {R : Type 0} (p : R → Bool) (f : R → R) (t : Table R) {t' : Table R}
      → update p f t ≡ some t'
      → rows t' ≡ updated p f (rows t)
  pub delete_lem :
      {R : Type 0} (p : R → Bool) (t : Table R) {t' : Table R}
      → delete p t ≡ some t'
      → rows t' ≡ filter (λ r. not (p r)) (rows t)
  pub insert_next_lem :
      {R : Type 0} (key : R → ℕ) (f : ℕ → R) (t : Table R) {t' : Table R} {n : ℕ}
      → insert_next key f t ≡ some (t', n)
      → (rows t' ≡ f n ∷ rows t) × (any (λ r. eqb (key r) n) (rows t) ≡ false)
  pub count_lem :
      {R : Type 0} (p : R → Bool) (t : Table R) {n : ℕ}
      → count p t ≡ some n
      → n ≡ length (filter p (rows t))
  pub page_lem :
      {R : Type 0} (p : R → Bool) (by : R → ℕ × ℕ) (limit offset : Bound) (t : Table R)
      {rs : List R}
      → page p by limit offset t ≡ some rs
      → (all : List R) × Perm all (filter p (rows t))
        × Descending by all
        × (rs ≡ limited limit (offset_by offset all))
