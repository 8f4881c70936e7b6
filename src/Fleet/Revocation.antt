-- ===== src/Fleet/Revocation.antt =====
-- A delete in packages/schema/src/endpoints/fleet/deviceDelete.ts that fails half way.
use ngfw_sh.Prelude.{
  ◌==◌, Bool-cases, filter, filter-not, ℕ, String, ◌≡◌, inl, inr, false, Option, some, List, [],
  ◌∷◌, arith,
}
use ngfw_sh.Platform.Http.{errors, on_error, refused}
use ngfw_sh.Platform.Database.{Database}
use ngfw_sh.Platform.Kv.{Kv}
use ngfw_sh.Fleet.{
  DeviceInternal, Device, device_key, apikey_key, owner_key, owned_device, device_delete,
}
use ngfw_sh.Fleet.Keys.{device-eq-apikey, owner-eq-apikey}
use ngfw_sh.Fleet.Invariant.{State, signed_in}

module _ (d1 : Database) (kv : Kv) (stringify : Device → String) (Json : Type 0)
    (parse : String → Option Json) where
  open d1 use {rows, select, delete, delete_lem}
  open kv use {Store, entry, delete as forget, delete_done, delete_failed}

  -- Deleting another key, whether or not it succeeds, keeps what an API key signs in.
  entry-forget :
      (k key : String) (keys : Store String)
      → (k == apikey_key key) ≡ false
      → entry (apikey_key key) (forget k keys).0 ≡ entry (apikey_key key) keys
  entry-forget k key keys h = elim (Bool-cases (forget k keys).1) [
    | inl e ↦ ground (arith, delete_done k keys (apikey_key key))
    | inr e ↦ ground (arith, delete_failed k keys (apikey_key key))
  ]

  -- If the row is deleted and the delete of its API key is rejected, then the answer is 500, the
  -- user no longer owns a device of that id, and the API key still signs in what it did before.
  pub device_delete_unrevoked :
      (build : String → List (ℕ × String)) (user id : String) (s : State d1 kv stringify Json parse)
      (r : DeviceInternal) (rs : List DeviceInternal) (t : d1.Table DeviceInternal)
      → select (owned_device id user) s.devices ≡ some (r ∷ rs)
      → delete (owned_device id user) s.devices ≡ some t
      → (forget (apikey_key r.api_key) (forget (device_key id) s.keys).0).1 ≡ false
      → let run = device_delete d1 kv stringify Json parse user id s in
        (on_error build run.0 ≡ refused 500 (errors ((7000, "Internal Server Error") ∷ [])))
        × (filter (owned_device id user) (rows run.1.devices) ≡ [])
        × (signed_in d1 kv stringify Json parse run.1 r.api_key
            ≡ signed_in d1 kv stringify Json parse s r.api_key)
  unfolding device_delete on_error
  device_delete_unrevoked build user id s r rs t found gone failed =
      let keys₁ = (forget (device_key id) s.keys).0 in
      let keys₂ = (forget (apikey_key r.api_key) keys₁).0 in
      (
        ground arith,
        ground (
          arith,
          delete_lem (owned_device id user) s.devices gone,
          filter-not (owned_device id user) (rows s.devices),
        ),
        ground (
          arith,
          entry-forget (device_key id) r.api_key s.keys,
          delete_failed (apikey_key r.api_key) keys₁ (apikey_key r.api_key),
          entry-forget (owner_key user id) r.api_key keys₂,
          device-eq-apikey id r.api_key,
          owner-eq-apikey id r.api_key user,
        ),
      )
