-- ===== src/Ddns/Force.antt =====
-- The request that packages/schema/src/endpoints/ddns/forceUpdate.ts leaves for an agent.
use text.Mathlib.TextEquality.{eq_iff}
use ngfw_sh.Prelude.{
  ◌==◌, if◌then◌else◌, Option-cases, first_some, ℕ, ◌+◌, ◌/◌, String, ◌≡◌, refl, ◌⊎◌, inl, inr,
  true, some, [], ◌∷◌, Mem, arith,
}
use ngfw_sh.Platform.Http.{Refusal, error, Reply, Outcome, ok, refused, value, thrown}
use ngfw_sh.Platform.Database.{Database}
use ngfw_sh.Platform.Kv.{Kv}
use ngfw_sh.Fleet.{DeviceInternal, device, owned_device}
use ngfw_sh.Ddns.{DdnsConfig, of_device, ForceReply, update_key, force_request, Ddns, force_update}

module _ (d1 : Database) (kv : Kv) where
  open d1 use {rows, select, select_lem}
  open kv use {entry, put, put_done}

  -- A request is left only for a device that the user owns and whose configuration is enabled, for
  -- five minutes, and nothing else in the namespace changes.
  force_update_accepted :
      (user device : String) (now : ℕ) (s : Ddns d1 kv) {f : ForceReply}
      → (force_update d1 kv user device now s).0 ≡ value (ok 200 f)
      → let s' = (force_update d1 kv user device now s).1 in
        ((r : DeviceInternal) × Mem r (rows s.devices) × (owned_device device user r ≡ true))
        × ((c : DdnsConfig) × Mem c (rows s.ddns_configs)
            × (c.device_id ≡ device)
            × (c.enabled ≡ true))
        × ((k : String)
            → entry k s'.configs ≡ (
                if update_key device == k
                then some (force_request device (now / 1000), some (now / 1000 + 300))
                else entry k s.configs))
  unfolding force_update
  force_update_accepted user device now s done =
      elim (Option-cases (select (owned_device device user) s.devices)) [
        | inl e ↦ ground arith
        | inr ([], e) ↦ ground arith
        | inr (r ∷ rs, e) ↦ elim (Option-cases (select (of_device device) s.ddns_configs)) [
          | inl f ↦ ground arith
          | inr ([], f) ↦ ground arith
          | inr (c ∷ cs, f) ↦
              let mine =
                first_some (owned_device device user) (rows s.devices)
                  (select_lem (owned_device device user) s.devices e) refl in
              let its =
                first_some (of_device device) (rows s.ddns_configs)
                  (select_lem (of_device device) s.ddns_configs f) refl in
              (
                (r, mine.0, mine.1),
                (c, its.0, (eq_iff _ _).0 its.1, ground arith),
                λ k. ground (
                  arith,
                  put_done (update_key device)
                      (force_request device (now / 1000), some (now / 1000 + 300)) s.configs k,
                ),
              )
        ]
      ]

  -- A request that is refused leaves nothing.
  force_update_refused :
      (user device : String) (now : ℕ) (s : Ddns d1 kv) (status : ℕ) (message : Refusal)
      → (force_update d1 kv user device now s).0 ≡ value (refused status message)
      → ((force_update d1 kv user device now s).1 ≡ s)
        × ((status ≡ 404)
            ⊎ ((status ≡ 400) × (message ≡ (error "DDNS is disabled for this device"))))
  unfolding force_update
  force_update_refused user device now s status message h = ground arith

  force_update_status :
      (user device : String) (now : ℕ) (s : Ddns d1 kv) {status : ℕ} {f : ForceReply}
      → (force_update d1 kv user device now s).0 ≡ value (ok status f)
      → status ≡ 200
  unfolding force_update
  force_update_status user device now s h = ground arith

  -- What an answer says of the tables and the namespace before it and after it.
  abbrev pub Explains : String → String → ℕ → Ddns d1 kv → Outcome (Reply ForceReply) → Type 0
  Explains user device now s (value (ok status f)) =
      let s' = (force_update d1 kv user device now s).1 in
      ((r : DeviceInternal) × Mem r (rows s.devices) × (owned_device device user r ≡ true))
      × ((c : DdnsConfig) × Mem c (rows s.ddns_configs)
          × (c.device_id ≡ device)
          × (c.enabled ≡ true))
      × ((k : String)
          → entry k s'.configs ≡ (
              if update_key device == k
              then some (force_request device (now / 1000), some (now / 1000 + 300))
              else entry k s.configs))
  Explains user device now s (value (refused status message)) =
      ((force_update d1 kv user device now s).1 ≡ s)
      × ((status ≡ 404) ⊎ ((status ≡ 400) × (message ≡ (error "DDNS is disabled for this device"))))
  Explains user device now s (thrown e) = Unit

  -- A forced update that is accepted is for a device that the user owns and whose configuration is
  -- enabled, and leaves a request for five minutes, with nothing else in the namespace changed; one that
  -- is refused leaves everything as it was, with 404, or with 400 if the configuration is disabled.
  pub force_update-Explains :
      (user device : String) (now : ℕ) (s : Ddns d1 kv)
      → Explains user device now s (force_update d1 kv user device now s).0
  force_update-Explains user device now s = explained (force_update d1 kv user device now s).0 refl
    where
      explained :
          (o : Outcome (Reply ForceReply))
          → (force_update d1 kv user device now s).0 ≡ o
          → Explains user device now s o
      explained (value (ok status f)) e =
          force_update_accepted user device now s {f = f}
            (rw (force_update_status user device now s e) at e)
      explained (value (refused status message)) e =
          force_update_refused user device now s status message e
      explained (thrown f) e = tt
