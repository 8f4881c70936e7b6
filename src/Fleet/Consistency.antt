-- ===== src/Fleet/Consistency.antt =====
-- The table `devices` and the API keys after any requests to the router of
-- packages/schema/src/endpoints/fleet.
use ngfw_sh.Prelude.{
  Option-cases, ℕ, String, ◌≡◌, refl, ap, ◌∙◌, inl, inr, Option, List, [], ◌∷◌, arith,
}
use ngfw_sh.Platform.Http.{Refusal, Reply, Outcome, ok, refused, value, thrown}
use ngfw_sh.Platform.Database.{Database}
use ngfw_sh.Platform.Kv.{Kv}
use ngfw_sh.Fleet.{
  Device, RegisterBody, Draw, Registered, owned_device, FleetRequest, Fleet, device_register,
  device_delete, device_list, device_status, serve, serve_all, list_devices, register,
  delete_device, read_status,
}
use ngfw_sh.Fleet.Invariant.{IsConsistent, device_register-IsConsistent, device_delete-IsConsistent}

-- That a handler has answered and not thrown.
abbrev pub IsAnswer : {A : Type 0} → Outcome A → Type 0
IsAnswer (value a) = Unit
IsAnswer (thrown e) = ⊥

module _ (d1 : Database) (kv : Kv) (stringify : Device → String) (Json : Type 0)
    (parse : String → Option Json) where
  open d1 use {select}

  abbrev Fleet₀ : Type 0
  Fleet₀ = Fleet d1 kv stringify Json parse

  register_status :
      (draw : Draw) (user : String) (body : RegisterBody) (s : Fleet₀) {r : Reply Registered}
      → (device_register d1 kv stringify Json parse draw user body s).0 ≡ value r
      → (out : Registered) × (r ≡ ok 201 out)
  unfolding device_register
  register_status draw user body s {r = ok n out} h = (out, ground arith)
  register_status draw user body s {r = refused n m} h = absurd (ground arith)

  register-keeps :
      (draw : Draw) (user : String) (body : RegisterBody) (s : Fleet₀)
      (o : Outcome (Reply Registered))
      → (device_register d1 kv stringify Json parse draw user body s).0 ≡ o
      → IsAnswer o
      → IsConsistent d1 kv stringify Json parse s
      → IsConsistent d1 kv stringify Json parse
          (device_register d1 kv stringify Json parse draw user body s).1
  register-keeps draw user body s (thrown e) h a v = elim a [ ]
  register-keeps draw user body s (value r) h a v =
      let (out, same) = register_status draw user body s h in
      device_register-IsConsistent d1 kv stringify Json parse draw user body s (h ∙ ap value same) v

  delete_status :
      (user id : String) (s : Fleet₀) {n : ℕ} {out : Unit {0}}
      → (device_delete d1 kv stringify Json parse user id s).0 ≡ value (ok n out)
      → n ≡ 200
  unfolding device_delete
  delete_status user id s h = elim (Option-cases (select (owned_device id user) s.devices)) [
    | inl e ↦ ground arith
    | inr ([], e) ↦ ground arith
    | inr (r ∷ rs, e) ↦ ground arith
  ]

  refused_unchanged :
      (user id : String) (s : Fleet₀) {n : ℕ} {m : Refusal}
      → (device_delete d1 kv stringify Json parse user id s).0 ≡ value (refused n m)
      → (device_delete d1 kv stringify Json parse user id s).1 ≡ s
  unfolding device_delete
  refused_unchanged user id s h = elim (Option-cases (select (owned_device id user) s.devices)) [
    | inl e ↦ ground arith
    | inr ([], e) ↦ ground arith
    | inr (r ∷ rs, e) ↦ ground arith
  ]

  delete-keeps :
      (user id : String) (s : Fleet₀) (o : Outcome (Reply (Unit {0})))
      → (device_delete d1 kv stringify Json parse user id s).0 ≡ o
      → IsAnswer o
      → IsConsistent d1 kv stringify Json parse s
      → IsConsistent d1 kv stringify Json parse
          (device_delete d1 kv stringify Json parse user id s).1
  delete-keeps user id s (thrown e) h a v = elim a [ ]
  delete-keeps user id s (value (ok n tt)) h a v =
      device_delete-IsConsistent d1 kv stringify Json parse user id s
        (h ∙ ap (λ k. value (ok k tt)) (delete_status user id s h)) v
  delete-keeps user id s (value (refused n m)) h a v = rw (refused_unchanged user id s h) v

  -- A request that writes is answered.
  abbrev pub IsAnswered : String → FleetRequest → Fleet₀ → Type 0
  IsAnswered user (register draw body) s =
      IsAnswer (device_register d1 kv stringify Json parse draw user body s).0
  IsAnswered user (delete_device id) s =
      IsAnswer (device_delete d1 kv stringify Json parse user id s).0
  IsAnswered user list_devices s = Unit
  IsAnswered user (read_status now id) s = Unit

  abbrev pub AreAnswered : List (String × FleetRequest) → Fleet₀ → Type 0
  AreAnswered [] s = Unit
  AreAnswered ((user, q) ∷ qs) s =
      IsAnswered user q s × AreAnswered qs (serve d1 kv stringify Json parse user q s)

  read_unchanged :
      (now : ℕ) (user id : String) (s : Fleet₀)
      → (device_status d1 kv stringify Json parse now user id s).1 ≡ s
  unfolding device_status
  read_unchanged now user id s = ground arith

  list_unchanged :
      (user : String) (s : Fleet₀) → (device_list d1 kv stringify Json parse user s).1 ≡ s
  unfolding device_list
  list_unchanged user s = ground arith

  serve-IsConsistent :
      (user : String) (q : FleetRequest) (s : Fleet₀)
      → IsAnswered user q s
      → IsConsistent d1 kv stringify Json parse s
      → IsConsistent d1 kv stringify Json parse (serve d1 kv stringify Json parse user q s)
  unfolding serve
  serve-IsConsistent user list_devices s a v = rw (list_unchanged user s) v
  serve-IsConsistent user (register draw body) s a v = register-keeps draw user body s _ refl a v
  serve-IsConsistent user (delete_device id) s a v = delete-keeps user id s _ refl a v
  serve-IsConsistent user (read_status now id) s a v = rw (read_unchanged now user id s) v

  -- After any requests of any users, refused ones among them, the table and the API keys agree if they did
  -- before and no registration and no delete threw: rows are distinct, each row's key signs in its device,
  -- and no other key signs in.
  pub serve_all-IsConsistent :
      (qs : List (String × FleetRequest)) (s : Fleet₀)
      → AreAnswered qs s
      → IsConsistent d1 kv stringify Json parse s
      → IsConsistent d1 kv stringify Json parse (serve_all d1 kv stringify Json parse qs s)
  unfolding serve_all
  serve_all-IsConsistent [] s a v = v
  serve_all-IsConsistent ((user, q) ∷ qs) s (a, as') v =
      serve_all-IsConsistent qs (serve d1 kv stringify Json parse user q s) as'
        (serve-IsConsistent user q s a v)
