-- ===== src/Fleet/Replies.antt =====
-- What packages/schema/src/endpoints/fleet answers.
use mathlib.Core.List.Perm
use text.Mathlib.TextPositions.{eq_refl}
use mathlib.Core.List.{mem-cons_self}
use ngfw_sh.Prelude.{
  ◌==◌, Option-cases, filter, first_some, first_none, ℕ, String, ◌≡◌, refl, inl, inr, true, Option,
  some, List, [], ◌∷◌, map, Mem, Perm, arith,
}
use ngfw_sh.Platform.Http.{error, ok, refused, value}
use ngfw_sh.Platform.Database.{Database}
use ngfw_sh.Platform.Kv.{Kv}
use ngfw_sh.Fleet.{
  DeviceInternal, Device, device, RegisterBody, Draw, Registered, new_device, owned_device, Fleet,
  DeviceStatus, device_register, device_delete, device_list, device_status,
}
use ngfw_sh.Fleet.Isolation.{of_owner}
use ngfw_sh.Fleet.Invariant.{registered-rows, registered_device}

mem-device_first :
    (user : String) (r : DeviceInternal) (rs : List DeviceInternal)
    → (r.owner_id == user) ≡ true
    → Mem (device r) (map device (filter (of_owner user) (r ∷ rs)))
mem-device_first user r rs e = rw e mem-cons_self

-- What is shown of a row.
pub record IsShown (r : DeviceInternal) (d : Device) : Type 0 where
  pub id : d.id ≡ r.id
  pub name : d.name ≡ r.name
  pub model : d.model ≡ r.model
  pub serial : d.serial ≡ r.serial
  pub owner_id : d.owner_id ≡ r.owner_id
  pub firmware_version : d.firmware_version ≡ r.firmware_version
  pub status : d.status ≡ r.status
  pub created_at : d.created_at ≡ r.created_at
  pub last_seen : d.last_seen ≡ r.last_seen

device-IsShown : (r : DeviceInternal) → IsShown r (device r)
unfolding device
device-IsShown r = record {
  id = refl;
  name = refl;
  model = refl;
  serial = refl;
  owner_id = refl;
  firmware_version = refl;
  status = refl;
  created_at = refl;
  last_seen = refl;
}

module _ (d1 : Database) (kv : Kv) (stringify : Device → String) (Json : Type 0)
    (parse : String → Option Json) where
  open d1 use {rows, select, insert, delete, select_lem, insert_lem, delete_lem}
  open kv use {Store, entry, put, delete as forget, put_done, delete_done, delete_failed}

  abbrev State : Type 0
  State = Fleet d1 kv stringify Json parse

  -- A list of devices that is answered holds the public part of each row of the user, and of no
  -- other: every column as it is, but for the key.
  pub device_list_lem :
      (user : String) (s : State) {ds : List Device}
      → (device_list d1 kv stringify Json parse user s).0 ≡ value (ok 200 ds)
      → Perm ds (map device (filter (of_owner user) (rows s.devices)))
        × ((r : DeviceInternal) → IsShown r (device r))
  unfolding device_list
  device_list_lem user s {ds = ds} h = elim (Option-cases (select (of_owner user) s.devices)) [
    | inl e ↦ ground arith
    | inr (rs, e) ↦
        let same = listed rs e in
        (rw (← same) (Perm.map device (select_lem (of_owner user) s.devices e)), device-IsShown)
  ]
    where
      listed :
          (rs : List DeviceInternal)
          → select (of_owner user) s.devices ≡ some rs
          → map device rs ≡ ds
      listed rs e = ground arith

  -- A delete that answers 404 has changed nothing, and the user owns no device of that id.
  pub device_delete_refused :
      (user id : String) (s : State)
      → (device_delete d1 kv stringify Json parse user id s).0
        ≡ value (refused 404 (error "Device not found"))
      → ((device_delete d1 kv stringify Json parse user id s).1 ≡ s)
        × (filter (owned_device id user) (rows s.devices) ≡ [])
  unfolding device_delete
  device_delete_refused user id s h =
      elim (Option-cases (select (owned_device id user) s.devices)) [
        | inl e ↦ ground arith
        | inr ([], e) ↦ (
          ground arith,
          first_none (owned_device id user) (rows s.devices)
              (select_lem (owned_device id user) s.devices e) refl,
        )
        | inr (r ∷ rs, e) ↦ ground arith
      ]

  -- The status of a device is shown to its owner only, and without its API key.
  pub device_status_owned :
      (now : ℕ) (user id : String) (s : State) {out : DeviceStatus d1 kv stringify Json parse}
      → (device_status d1 kv stringify Json parse now user id s).0 ≡ value (ok 200 out)
      → (r : DeviceInternal) × Mem r (rows s.devices)
        × (owned_device id user r ≡ true)
        × (out.device ≡ device r)
  unfolding device_status
  device_status_owned now user id s h =
      elim (Option-cases (select (owned_device id user) s.devices)) [
        | inl e ↦ ground arith
        | inr ([], e) ↦ ground arith
        | inr (r ∷ rs, e) ↦
            let found =
              first_some (owned_device id user) (rows s.devices)
                (select_lem (owned_device id user) s.devices e) refl in
            (r, found.0, found.1, ground arith)
      ]

  -- A device just registered is in its owner's list.
  device_list-device_register :
      (draw : Draw) (user : String) (body : RegisterBody) (s : State) {out : Registered}
      {ds : List Device}
      → (device_register d1 kv stringify Json parse draw user body s).0 ≡ value (ok 201 out)
      → (device_list d1 kv stringify Json parse user
          (device_register d1 kv stringify Json parse draw user body s).1).0
        ≡ value (ok 200 ds)
      → Mem out.device ds
  device_list-device_register draw user body s {out = out} h l =
      let rows_now = registered-rows d1 kv stringify Json parse draw user body s h in
      let shown = registered_device d1 kv stringify Json parse draw user body s h in
      (Perm.mem_iff (device_list_lem user _ l).0).1 (
        rw (rows_now.0, shown) (mem-device_first user (new_device draw user body) _ (eq_refl user)))
