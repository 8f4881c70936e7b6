-- ===== src/Fleet/Isolation.antt =====
-- Requests of one user leave the devices of the others alone.
use text.Mathlib.TextEquality.{eq_iff}
use ngfw_sh.Prelude.{
  ◌==◌, Option-cases, filter, String, ◌≡◌, refl, ◌∙◌, ◌≢◌, ◌⊎◌, inl, inr, Bool, false, not, ◌&&◌,
  Option, List, [], ◌∷◌, arith,
}
use ngfw_sh.Platform.Database.{Database}
use ngfw_sh.Platform.Kv.{Kv}
use ngfw_sh.Fleet.{
  DeviceInternal, Device, RegisterBody, Draw, same_device, new_device, owned_device, FleetRequest,
  Fleet, device_register, device_delete, serve, serve_all, list_devices, register, delete_device,
  read_status,
}

-- The rows that belong to a user.
abbrev pub of_owner : String → DeviceInternal → Bool
of_owner user r = r.owner_id == user

module _ (u : String) where
  filter-insert :
      (r : DeviceInternal) (rs : List DeviceInternal)
      → (r.owner_id == u) ≡ false
      → filter (of_owner u) (r ∷ rs) ≡ filter (of_owner u) rs
  filter-insert r rs e = ground arith

  filter-delete :
      (id v : String) (rs : List DeviceInternal)
      → v ≢ u
      → filter (of_owner u) (filter (λ r. not (r.id == id && r.owner_id == v)) rs)
        ≡ filter (of_owner u) rs
  filter-delete id v [] h = refl
  filter-delete id v (r ∷ rs) h =
      ground (arith, filter-delete id v rs h, eq_iff r.owner_id u, eq_iff r.owner_id v)

module _ (d1 : Database) (kv : Kv) (stringify : Device → String) (Json : Type 0)
    (parse : String → Option Json) where
  open d1 use {rows, select, insert, delete, insert_lem, delete_lem}

  abbrev State : Type 0
  State = Fleet d1 kv stringify Json parse

  pub devices-register :
      (draw : Draw) (user : String) (body : RegisterBody) (s : State)
      → ((device_register d1 kv stringify Json parse draw user body s).1 ≡ s)
        ⊎ (rows (device_register d1 kv stringify Json parse draw user body s).1.devices
            ≡ new_device draw user body ∷ rows s.devices)
  unfolding device_register
  devices-register draw user body s =
      elim (Option-cases (insert same_device (new_device draw user body) s.devices)) [
        | inl e ↦ ground arith
        | inr (t, e) ↦
            ground (arith, insert_lem same_device (new_device draw user body) s.devices e)
      ]

  pub devices-delete :
      (user id : String) (s : State)
      → ((device_delete d1 kv stringify Json parse user id s).1.devices ≡ s.devices)
        ⊎ (rows (device_delete d1 kv stringify Json parse user id s).1.devices
            ≡ filter (λ r. not (owned_device id user r)) (rows s.devices))
  unfolding device_delete
  devices-delete user id s = elim (Option-cases (select (owned_device id user) s.devices)) [
    | inl e ↦ ground arith
    | inr ([], e) ↦ ground arith
    | inr (r ∷ rs, e) ↦ elim (Option-cases (delete (owned_device id user) s.devices)) [
      | inl f ↦ ground arith
      | inr (t, f) ↦ ground (arith, delete_lem (owned_device id user) s.devices f)
    ]
  ]

  serve-of_owner :
      (u v : String) (q : FleetRequest) (s : State)
      → v ≢ u
      → filter (of_owner u) (rows (serve d1 kv stringify Json parse v q s).devices)
        ≡ filter (of_owner u) (rows s.devices)
  unfolding serve
  serve-of_owner u v list_devices s h = ground arith
  serve-of_owner u v (register draw body) s h = ground (
    arith,
    devices-register draw v body s,
    filter-insert u (new_device draw v body) (rows s.devices),
    eq_iff v u,
  )
  serve-of_owner u v (delete_device id) s h =
      ground (arith, devices-delete v id s, filter-delete u id v (rows s.devices))
  serve-of_owner u v (read_status now id) s h = ground arith

  abbrev pub FromOthers : String → List (String × FleetRequest) → Type 0
  FromOthers u [] = Unit
  FromOthers u ((v, q) ∷ qs) = (v ≢ u) × FromOthers u qs

  -- However many requests other users make, and whichever of them fail half way, the rows of a
  -- user's devices stay as they were, all of them and in their order.
  pub serve_all-of_owner :
      (u : String) (qs : List (String × FleetRequest)) (s : State)
      → FromOthers u qs
      → filter (of_owner u) (rows (serve_all d1 kv stringify Json parse qs s).devices)
        ≡ filter (of_owner u) (rows s.devices)
  unfolding serve_all
  serve_all-of_owner u [] s h = refl
  serve_all-of_owner u ((v, q) ∷ qs) s (p, h) =
      serve_all-of_owner u qs _ h ∙ serve-of_owner u v q s p
