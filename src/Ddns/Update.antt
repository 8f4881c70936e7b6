-- ===== src/Ddns/Update.antt =====
-- What packages/schema/src/endpoints/ddns/configUpdate.ts does to the table.
use mathlib.Core.List.Perm
use text.Mathlib.TextPositions.{eq_refl}
use text.Mathlib.TextEquality.{eq_iff}
use ngfw_sh.Prelude.{
  both, ◌==◌, Option-cases, filter, first_some, cons_of_perm, ℕ, ◌/◌, String, ◌≡◌, refl, inl, inr,
  Bool, not, Option, some, List, [], ◌∷◌, map, Mem, Perm, arith,
}
use ngfw_sh.Platform.Http.{Outcome, ok, value}
use ngfw_sh.Platform.Database.{updated, Database}
use ngfw_sh.Platform.Kv.{Kv}
use ngfw_sh.Fleet.{DeviceInternal, device, owned_device}
use ngfw_sh.Ddns.{
  DdnsConfig, DdnsConfigUpdateInput, apply_updates, new_config, of_device, same_config, Ddns,
  write_config, config_update,
}
use ngfw_sh.Ddns.Merging.{merged, Merges, Merges-merged}

-- The rows of a device, and those of others.
abbrev pub at_device : String → DdnsConfig → Bool
at_device device c = c.device_id == device

abbrev pub elsewhere : String → DdnsConfig → Bool
elsewhere device c = not (at_device device c)

module _ (device : String) (u : DdnsConfigUpdateInput) (now : ℕ) where
  elsewhere-updated :
      (rs : List DdnsConfig)
      → filter (elsewhere device) (updated (of_device device) (apply_updates u now) rs)
        ≡ filter (elsewhere device) rs
  unfolding apply_updates
  elsewhere-updated [] = refl
  elsewhere-updated (c ∷ rs) = ground (arith, elsewhere-updated rs)

  -- The device's own rows are the old ones with the fields that were given.
  own-updated :
      (rs : List DdnsConfig)
      → filter (of_device device) (updated (of_device device) (apply_updates u now) rs)
        ≡ map (apply_updates u now) (filter (of_device device) rs)
  unfolding apply_updates
  own-updated [] = refl
  own-updated (c ∷ rs) = ground (arith, own-updated rs)

module _ (d1 : Database) (kv : Kv) where
  open d1 use {rows, select, insert, update, select_lem, insert_lem, update_lem}

  -- What an accepted update makes of the table: the device's configuration with the given fields
  -- over the old ones, or over the defaults if it had none. The device is the user's, and the
  -- configurations of other devices stay.
  abbrev pub Updates :
      String → String → DdnsConfigUpdateInput → ℕ → String → Ddns d1 kv → Ddns d1 kv → Type 0
  Updates user device u now uuid s s' =
      ((r : DeviceInternal) × Mem r (rows s.devices) × (r.id ≡ device) × (r.owner_id ≡ user))
      × Merges u device now uuid (filter (at_device device) (rows s.ddns_configs))
          (filter (at_device device) (rows s'.ddns_configs))
      × (filter (elsewhere device) (rows s'.ddns_configs)
          ≡ filter (elsewhere device) (rows s.ddns_configs))

  pub write_config_lem :
      (u : DdnsConfigUpdateInput) (device : String) (now : ℕ) (uuid : String)
      (found : List DdnsConfig) (s : Ddns d1 kv)
      → Perm found (filter (of_device device) (rows s.ddns_configs))
      → (write_config d1 kv u device now uuid found s).0 ≡ value tt
      → let s' = (write_config d1 kv u device now uuid found s).1 in
        (filter (of_device device) (rows s'.ddns_configs)
          ≡ merged u device now uuid (filter (of_device device) (rows s.ddns_configs)))
        × (filter (elsewhere device) (rows s'.ddns_configs)
            ≡ filter (elsewhere device) (rows s.ddns_configs))
  unfolding write_config new_config
  write_config_lem u device now uuid [] s p done =
      let none_yet = Perm.eq-nil (Perm.symm p) in
      elim (Option-cases (insert same_config (new_config u device now uuid) s.ddns_configs)) [
        | inl e ↦ ground arith
        | inr (t, e) ↦
            ground (arith, none_yet, insert_lem same_config _ s.ddns_configs e, eq_refl device)
      ]
  write_config_lem u device now uuid (c ∷ cs) s p done =
      let (y, ys, shape) = cons_of_perm (filter (of_device device) (rows s.ddns_configs)) p in
      elim (Option-cases (update (of_device device) (apply_updates u now) s.ddns_configs)) [
        | inl e ↦ ground arith
        | inr (t, e) ↦ ground (
          arith,
          shape,
          update_lem (of_device device) (apply_updates u now) s.ddns_configs e,
          own-updated device u now (rows s.ddns_configs),
          elsewhere-updated device u now (rows s.ddns_configs),
        )
      ]

  module _ (user device : String) (u : DdnsConfigUpdateInput) (now : ℕ) (uuid : String)
      (s : Ddns d1 kv) where
    abbrev wrote : List DdnsConfig → Outcome (Unit {0}) × Ddns d1 kv
    wrote found = write_config d1 kv u device (now / 1000) uuid found s

    Updates-of_write :
        (r : DeviceInternal) (rs : List DeviceInternal) (found : List DdnsConfig)
        → select (owned_device device user) s.devices ≡ some (r ∷ rs)
        → select (of_device device) s.ddns_configs ≡ some found
        → (wrote found).0 ≡ value tt
        → Updates user device u (now / 1000) uuid s (wrote found).1
    Updates-of_write r rs found e f done =
        let written =
          write_config_lem u device (now / 1000) uuid found s
            (select_lem (of_device device) s.ddns_configs f) done in
        let mine =
          first_some (owned_device device user) (rows s.devices)
            (select_lem (owned_device device user) s.devices e) refl in
        (
          (
            r,
            mine.0,
            (eq_iff r.id device).0 (both (r.id == device) (r.owner_id == user) mine.1).0,
            (eq_iff r.owner_id user).0 (both (r.id == device) (r.owner_id == user) mine.1).1,
          ),
          rw written.0 (
              Merges-merged u device (now / 1000) uuid
                (filter (of_device device) (rows s.ddns_configs))),
          written.1,
        )

    -- An update that is accepted is of a device of the user's. It leaves the configurations of other
    -- devices. Of the device's own, each has every given field as it was given and the others as they were,
    -- `null` included, with the time of the update; where there was none, there is one with the given
    -- fields and defaults for the others.
    pub config_update-Updates :
        {c : Option DdnsConfig}
        → (config_update d1 kv user device u now uuid s).0 ≡ value (ok 200 c)
        → Updates user device u (now / 1000) uuid s (config_update d1 kv user device u now uuid s).1
    unfolding config_update
    config_update-Updates done = elim (Option-cases (select (owned_device device user) s.devices)) [
      | inl e ↦ ground arith
      | inr ([], e) ↦ ground arith
      | inr (r ∷ rs, e) ↦ elim (Option-cases (select (of_device device) s.ddns_configs)) [
        | inl f ↦ ground arith
        | inr (found, f) ↦
            let wrote_it : (wrote found).0 ≡ value tt = ground arith in
            let ends : (config_update d1 kv user device u now uuid s).1 ≡ (wrote found).1 =
              ground arith in
            rw ends (Updates-of_write r rs found e f wrote_it)
      ]
    ]
