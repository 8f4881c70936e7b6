-- ===== src/Platform/Kv.antt =====
-- Workers KV, which the handlers only call: texts to values, with a time to live. The `Bool` of a
-- write says whether its promise was fulfilled. Reads are taken where the last write was made.
use ngfw_sh.Prelude.{
  ltb, ◌==◌, if◌then◌else◌, ℕ, String, ◌≡◌, Bool, true, false, Option, none, some,
}

-- A value, and the second from which it is gone.
abbrev pub Entry : Type 0 → Type 0
Entry V = V × Option ℕ

abbrev pub visible : {V : Type 0} → ℕ → Option (Entry V) → Option V
visible now none = none
visible now (some (v, none)) = some v
visible now (some (v, some gone)) = if ltb now gone then some v else none

pub record Kv : Type 1 where
  pub Store : Type 0 → Type 0
  pub entry : {V : Type 0} → String → Store V → Option (Entry V)
  pub get : {V : Type 0} → String → ℕ → Store V → Option (Option V)
  pub put : {V : Type 0} → String → Entry V → Store V → Store V × Bool
  pub delete : {V : Type 0} → String → Store V → Store V × Bool
  pub get_lem :
      {V : Type 0} (k : String) (now : ℕ) (s : Store V) {found : Option V}
      → get k now s ≡ some found
      → found ≡ visible now (entry k s)
  pub put_done :
      {V : Type 0} (k : String) (e : Entry V) (s : Store V) (j : String)
      → (put k e s).1 ≡ true
      → entry j (put k e s).0 ≡ (if k == j then some e else entry j s)
  pub put_failed :
      {V : Type 0} (k : String) (e : Entry V) (s : Store V) (j : String)
      → (put k e s).1 ≡ false
      → entry j (put k e s).0 ≡ entry j s
  pub delete_done :
      {V : Type 0} (k : String) (s : Store V) (j : String)
      → (delete k s).1 ≡ true
      → entry j (delete k s).0 ≡ (if k == j then none else entry j s)
  pub delete_failed :
      {V : Type 0} (k : String) (s : Store V) (j : String)
      → (delete k s).1 ≡ false
      → entry j (delete k s).0 ≡ entry j s
