-- ===== src/Platform/Memory.antt =====
-- Lists in memory that meet the two interfaces, for the instances of theorems.
use mathlib.Core.List.Perm
use text.Mathlib.TextEquality.{eq_iff}
use ngfw_sh.Prelude.{
  ltb, leb, eqb, ◌==◌, if◌then◌else◌, Bool-cases, length, filter, any, ℕ, ◌+◌, max, ◌≤◌, String,
  ◌≡◌, refl, sym, inl, inr, Bool, true, false, not, ◌&&◌, ◌||◌, Option, none, some, List, [], ◌∷◌,
  Perm, arith,
}
use ngfw_sh.Platform.Database.{updated, Bound, limited, offset_by, Descending, Database}
use ngfw_sh.Platform.Bucket.{Bucket}
use ngfw_sh.Platform.Kv.{Entry, visible, Kv}

pub some_eq : {A : Type 0} {x y : A} → some x ≡ some y → x ≡ y
some_eq e = cc

module _ {R : Type 0} where
  abbrev insert_row : (R → R → Bool) → R → List R → Option (List R)
  insert_row clash r rs = if any (clash r) rs then none else some (r ∷ rs)

  pub insert_row_lem :
      (clash : R → R → Bool) (r : R) (t : List R) {t' : List R}
      → insert_row clash r t ≡ some t'
      → (t' ≡ r ∷ t) × (any (clash r) t ≡ false)
  insert_row_lem clash r t e = ground arith

  abbrev next_key : (R → ℕ) → List R → ℕ
  next_key key [] = 1
  next_key key (r ∷ rs) = max (key r + 1) (next_key key rs)

  above_keys :
      (key : R → ℕ) (rs : List R) (n : ℕ)
      → next_key key rs ≤ n
      → any (λ r. eqb (key r) n) rs ≡ false
  above_keys key [] n h = refl
  above_keys key (r ∷ rs) n h = ground (arith, above_keys key rs n)

  abbrev insert_numbered : (R → ℕ) → (ℕ → R) → List R → Option (List R × ℕ)
  insert_numbered key f rs = some (f (next_key key rs) ∷ rs, next_key key rs)

  pub insert_numbered_lem :
      (key : R → ℕ) (f : ℕ → R) (t : List R) {t' : List R} {n : ℕ}
      → insert_numbered key f t ≡ some (t', n)
      → (t' ≡ f n ∷ t) × (any (λ r. eqb (key r) n) t ≡ false)
  insert_numbered_lem key f t e = ground (arith, above_keys key t (next_key key t))

  module _ (by : R → ℕ × ℕ) where
    abbrev goes_first : R → R → Bool
    goes_first r x = ltb (by x).0 (by r).0 || eqb (by x).0 (by r).0 && leb (by x).1 (by r).1

    abbrev place : R → List R → List R
    place r [] = r ∷ []
    place r (x ∷ rs) = if goes_first r x then r ∷ x ∷ rs else x ∷ place r rs

    abbrev sorted : List R → List R
    sorted [] = []
    sorted (r ∷ rs) = place r (sorted rs)

    place-perm : (r : R) (rs : List R) → Perm (place r rs) (r ∷ rs)
    place-perm r [] = Perm.refl (r ∷ [])
    place-perm r (x ∷ rs) = elim (Bool-cases (goes_first r x)) [
      | inl e ↦ rw e (Perm.refl (r ∷ x ∷ rs))
      | inr e ↦ rw e (Perm.trans (Perm.cons x (place-perm r rs)) (Perm.swap r x rs))
    ]

    sorted-perm : (rs : List R) → Perm (sorted rs) rs
    sorted-perm [] = Perm.nil
    sorted-perm (r ∷ rs) = Perm.trans (place-perm r (sorted rs)) (Perm.cons r (sorted-perm rs))

    place-Descending : (r : R) (rs : List R) → Descending by rs → Descending by (place r rs)
    place-Descending r [] d = tt
    place-Descending r (x ∷ []) d = ground arith
    place-Descending r (x ∷ y ∷ rs) (p, d) = ground (arith, place-Descending r (y ∷ rs) d)

    sorted-Descending : (rs : List R) → Descending by (sorted rs)
    sorted-Descending [] = tt
    sorted-Descending (r ∷ rs) = place-Descending r (sorted rs) (sorted-Descending rs)

    pub page_of :
        (p : R → Bool) (limit offset : Bound) (t : List R) {rs : List R}
        → some (limited limit (offset_by offset (sorted (filter p t)))) ≡ some rs
        → (all : List R) × Perm all (filter p t)
          × Descending by all
          × (rs ≡ limited limit (offset_by offset all))
    page_of p limit offset t e = (
      sorted (filter p t),
      sorted-perm (filter p t),
      sorted-Descending (filter p t),
      sym (some_eq e),
    )

pub perm_of_some : {R : Type 0} {x y : List R} → some x ≡ some y → Perm y x
perm_of_some {x} e = let same = some_eq e in rw (← same) (Perm.refl x)

abbrev pub memory_database : Database
memory_database = record {
  Table = List;
  rows = λ t. t;
  select = λ p t. some (filter p t);
  insert = insert_row;
  update = λ p f t. some (updated p f t);
  delete = λ p t. some (filter (λ r. not (p r)) t);
  insert_next = insert_numbered;
  count = λ p t. some (length (filter p t));
  page = λ p by limit offset t. some (limited limit (offset_by offset (sorted by (filter p t))));
  select_lem = λ p t e. perm_of_some e;
  insert_lem = λ clash r t e. insert_row_lem clash r t e;
  update_lem = λ p f t e. sym (some_eq e);
  delete_lem = λ p t e. sym (some_eq e);
  insert_next_lem = λ key f t e. insert_numbered_lem key f t e;
  count_lem = λ p t e. sym (some_eq e);
  page_lem = λ p by limit offset t e. page_of by p limit offset t e;
}

module _ {V : Type 0} where
  abbrev look : String → List (String × Entry V) → Option (Entry V)
  look k [] = none
  look k ((j, e) ∷ s) = if j == k then some e else look k s

  abbrev erase : String → List (String × Entry V) → List (String × Entry V)
  erase k [] = []
  erase k ((j, e) ∷ s) = if j == k then erase k s else (j, e) ∷ erase k s

  pub look-erase :
      (k : String) (s : List (String × Entry V)) (j : String)
      → look j (erase k s) ≡ (if k == j then none else look j s)
  look-erase k [] j = ground arith
  look-erase k ((i, e) ∷ s) j = ground (arith, eq_iff i k, eq_iff i j, eq_iff k j, look-erase k s j)

  abbrev put_entry :
      (String → Bool) → String → Entry V → List (String × Entry V) → List (String × Entry V) × Bool
  put_entry fails k e s = if fails k then (s, false) else ((k, e) ∷ s, true)

  abbrev delete_entry :
      (String → Bool) → String → List (String × Entry V) → List (String × Entry V) × Bool
  delete_entry fails k s = if fails k then (s, false) else (erase k s, true)

  module _ (fails : String → Bool) (k : String) (s : List (String × Entry V)) (j : String) where
    pub put_entry_done :
        (e : Entry V)
        → (put_entry fails k e s).1 ≡ true
        → look j (put_entry fails k e s).0 ≡ (if k == j then some e else look j s)
    put_entry_done e d = ground arith

    pub put_entry_failed :
        (e : Entry V)
        → (put_entry fails k e s).1 ≡ false
        → look j (put_entry fails k e s).0 ≡ look j s
    put_entry_failed e d = ground arith

    pub delete_entry_done :
        (delete_entry fails k s).1 ≡ true
        → look j (delete_entry fails k s).0 ≡ (if k == j then none else look j s)
    delete_entry_done d = ground (arith, look-erase k s j)

    pub delete_entry_failed :
        (delete_entry fails k s).1 ≡ false → look j (delete_entry fails k s).0 ≡ look j s
    delete_entry_failed d = ground arith

-- A namespace that refuses the writes under some keys.
abbrev pub faulty_kv : (String → Bool) → Kv
faulty_kv fails = record {
  Store = λ V. List (String × Entry V);
  entry = look;
  get = λ k now s. some (visible now (look k s));
  put = put_entry fails;
  delete = delete_entry fails;
  get_lem = λ k now s e. sym (some_eq e);
  put_done = λ k e s j d. put_entry_done fails k s j e d;
  put_failed = λ k e s j d. put_entry_failed fails k s j e d;
  delete_done = λ k s j d. delete_entry_done fails k s j d;
  delete_failed = λ k s j d. delete_entry_failed fails k s j d;
}

abbrev pub memory_kv : Kv
memory_kv = faulty_kv (λ k. false)

abbrev holds : String → List String → Bool
holds j [] = false
holds j (k ∷ ks) = k == j && not (k == "") || holds j ks

abbrev drop_object : String → List String → List String
drop_object k [] = []
drop_object k (j ∷ ks) = if j == k then drop_object k ks else j ∷ drop_object k ks

holds-drop_object :
    (k : String) (ks : List String) (j : String)
    → holds j (drop_object k ks) ≡ (if k == j then false else holds j ks)
holds-drop_object k [] j = ground arith
holds-drop_object k (i ∷ ks) j =
    ground (arith, eq_iff i k, eq_iff i j, eq_iff k j, holds-drop_object k ks j)

pub holds_empty : (ks : List String) → holds "" ks ≡ false
holds_empty [] = refl
holds_empty (k ∷ ks) = ground (arith, holds_empty ks)

abbrev delete_object : (String → Bool) → String → List String → List String × Bool
delete_object fails k ks = if fails k then (ks, false) else (drop_object k ks, true)

module _ (fails : String → Bool) (k : String) (ks : List String) (j : String) where
  pub delete_object_done :
      (delete_object fails k ks).1 ≡ true
      → holds j (delete_object fails k ks).0 ≡ (if k == j then false else holds j ks)
  delete_object_done d = ground (arith, holds-drop_object k ks j)

  pub delete_object_failed :
      (delete_object fails k ks).1 ≡ false → holds j (delete_object fails k ks).0 ≡ holds j ks
  delete_object_failed d = ground arith

-- A bucket of keys that refuses to delete some.
abbrev pub faulty_bucket : (String → Bool) → Bucket
faulty_bucket fails = record {
  Store = List String;
  has = holds;
  delete = delete_object fails;
  delete_done = λ k ks j d. delete_object_done fails k ks j d;
  delete_failed = λ k ks j d. delete_object_failed fails k ks j d;
  has_key = holds_empty;
}

abbrev pub memory_bucket : Bucket
memory_bucket = faulty_bucket (λ k. false)
