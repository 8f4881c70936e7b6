-- ===== src/Prelude/Pairs.antt =====
-- Two lists whose items belong together, one by one.
use ngfw_sh.Prelude.{
  get_elem?, without, All, ℕ, zero, suc, ◌≡◌, refl, ap, Bool, true, none, some, List, [], ◌∷◌, ◌++◌,
  map, arith,
}

module _ {A B : Type 0} (R : A → B → Type 0) where
  abbrev pub Pairwise : List A → List B → Type 0
  Pairwise [] [] = Unit
  Pairwise [] (b ∷ bs) = ⊥
  Pairwise (a ∷ xs) [] = ⊥
  Pairwise (a ∷ xs) (b ∷ bs) = R a b × Pairwise xs bs

  pub Pairwise-map :
      (f : A → B) (p : A → Bool)
      → ((a : A) → p a ≡ true → R a (f a))
      → (xs : List A) → All (λ a. p a ≡ true) xs
      → Pairwise xs (map f xs)
  Pairwise-map f p r [] h = tt
  Pairwise-map f p r (a ∷ xs) (h, hs) = (r a h, Pairwise-map f p r xs hs)

  pub Pairwise-push :
      (xs : List A) (bs : List B) (a : A) (b : B)
      → Pairwise xs bs
      → R a b
      → Pairwise (xs ++ a ∷ []) (bs ++ b ∷ [])
  Pairwise-push [] [] a b h r = (r, tt)
  Pairwise-push [] (c ∷ bs) a b h r = absurd h
  Pairwise-push (c ∷ xs) [] a b h r = absurd h
  Pairwise-push (c ∷ xs) (d ∷ bs) a b (h, hs) r = (h, Pairwise-push xs bs a b hs r)

  pub Pairwise-without :
      (xs : List A) (bs : List B) (k : ℕ) → Pairwise xs bs → Pairwise (without xs k) (without bs k)
  Pairwise-without [] [] k h = tt
  Pairwise-without [] (b ∷ bs) k h = absurd h
  Pairwise-without (a ∷ xs) [] k h = absurd h
  Pairwise-without (a ∷ xs) (b ∷ bs) zero (h, hs) = hs
  Pairwise-without (a ∷ xs) (b ∷ bs) (suc k) (h, hs) = (h, Pairwise-without xs bs k hs)

  -- The item that belongs to the k-th.
  pub Pairwise-at :
      (xs : List A) (bs : List B) (k : ℕ) (b : B)
      → Pairwise xs bs
      → get_elem? bs k ≡ some b
      → (a : A) × (get_elem? xs k ≡ some a) × R a b
  Pairwise-at [] [] k b h e = absurd cc
  Pairwise-at [] (c ∷ bs) k b h e = absurd h
  Pairwise-at (a ∷ xs) [] k b h e = absurd h
  Pairwise-at (a ∷ xs) (c ∷ bs) zero b (h, hs) e = (a, refl, rw (← (let p : c ≡ b = cc in p)) h)
  Pairwise-at (a ∷ xs) (c ∷ bs) (suc k) b (h, hs) e = Pairwise-at xs bs k b hs e

module _ {A : Type 0} where
  pub without-none : (xs : List A) (k : ℕ) → get_elem? xs k ≡ none → without xs k ≡ xs
  without-none [] k e = refl
  without-none (x ∷ xs) zero e = ground arith
  without-none (x ∷ xs) (suc k) e = ap (λ l. x ∷ l) (without-none xs k e)
