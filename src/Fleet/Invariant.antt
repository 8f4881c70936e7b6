-- ===== src/Fleet/Invariant.antt =====
-- The table `devices` and the API keys in the namespace DEVICES, by which agents sign in, agree.
use text.Mathlib.TextEquality.{eq_iff}
use ngfw_sh.Prelude.{
  ◌==◌, if◌then◌else◌, Option-cases, filter, any, All, first_some, All-of_any, String, ◌≡◌, refl,
  ◌≢◌, inl, inr, true, false, not, Option, none, some, List, [], ◌∷◌, Mem, arith,
}
use ngfw_sh.Platform.Http.{ok, value}
use ngfw_sh.Platform.Database.{Database}
use ngfw_sh.Platform.Kv.{Entry, Kv}
use ngfw_sh.Fleet.{
  DeviceInternal, Device, device, RegisterBody, Draw, Registered, same_device, device_key,
  apikey_key, owner_key, new_device, owned_device, Fleet, device_register, device_delete,
}
use ngfw_sh.Fleet.Unique.{Distinct, Agrees, owned-Agrees, filter-Distinct, any-filter_key}
use ngfw_sh.Fleet.Keys.{device-eq-apikey, apikey-eq-apikey, owner-eq-apikey}

abbrev IsIndexed : (String → Option (Entry String)) → DeviceInternal → Type 0
IsIndexed lookup r = lookup r.api_key ≡ some (r.id, none)

module _ (d1 : Database) (kv : Kv) (stringify : Device → String) (Json : Type 0)
    (parse : String → Option Json) where
  open d1 use {rows, select, insert, delete, select_lem, insert_lem, delete_lem}
  open kv use {Store, entry, put, delete as forget, put_done, delete_done}

  abbrev pub State : Type 0
  State = Fleet d1 kv stringify Json parse

  -- The device that an API key signs in.
  abbrev pub signed_in : State → String → Option (Entry String)
  signed_in s key = entry (apikey_key key) s.keys

  -- Rows are distinct, each row's key signs in its device, and no other key signs in.
  pub record IsConsistent (s : State) : Type 0 where
    pub distinct : Distinct (rows s.devices)
    pub indexed : All (IsIndexed (signed_in s)) (rows s.devices)
    pub live :
        (key : String)
        → signed_in s key ≢ none
        → any (λ r. r.api_key == key) (rows s.devices) ≡ true

  -- A device that is registered without a failure.
  module _ (draw : Draw) (user : String) (body : RegisterBody) (s : State) {out : Registered}
      (done : (device_register d1 kv stringify Json parse draw user body s).0
        ≡ value (ok 201 out)) where
    abbrev pub registered : State
    registered = (device_register d1 kv stringify Json parse draw user body s).1

    abbrev pub row : DeviceInternal
    row = new_device draw user body

    abbrev keys₁ : Store String
    keys₁ = (put (device_key row.id) (stringify (device row), none) s.keys).0

    abbrev keys₂ : Store String
    keys₂ = (put (apikey_key row.api_key) (row.id, none) keys₁).0

    pub registered-rows :
        (rows registered.devices ≡ row ∷ rows s.devices)
        × (any (same_device row) (rows s.devices) ≡ false)
    unfolding device_register
    registered-rows = elim (Option-cases (insert same_device row s.devices)) [
      | inl e ↦ ground arith
      | inr (t, e) ↦ ground (arith, insert_lem same_device row s.devices e)
    ]

    pub registered_device : out.device ≡ device row
    unfolding device_register
    registered_device = ground arith

    registered-signed_in :
        (key : String)
        → signed_in registered key
          ≡ (if row.api_key == key then some (row.id, none) else signed_in s key)
    unfolding device_register
    registered-signed_in key = ground (
      arith,
      put_done (device_key row.id) (stringify (device row), none) s.keys (apikey_key key),
      put_done (apikey_key row.api_key) (row.id, none) keys₁ (apikey_key key),
      put_done (owner_key user row.id) ("1", none) keys₂ (apikey_key key),
      device-eq-apikey row.id key,
      apikey-eq-apikey row.api_key key,
      owner-eq-apikey row.id key user,
    )

    -- Rows of other keys keep what they sign in.
    IsIndexed-before :
        (rs : List DeviceInternal)
        → All (λ r. same_device row r ≡ false) rs
        → All (IsIndexed (signed_in s)) rs
        → All (IsIndexed (signed_in registered)) rs
    IsIndexed-before [] a h = tt
    IsIndexed-before (r ∷ rs) (p, a) (q, h) =
        (ground (arith, registered-signed_in r.api_key), IsIndexed-before rs a h)

    -- A registration that answers 201 keeps the table and the API keys consistent.
    pub device_register-IsConsistent : IsConsistent s → IsConsistent registered
    device_register-IsConsistent v = record {
      distinct = ground (arith, registered-rows);
      indexed = rw (registered-rows.0) (
        ground (arith, registered-signed_in row.api_key, eq_iff row.api_key row.api_key),
        IsIndexed-before (rows s.devices)
            (All-of_any (same_device row) (rows s.devices) registered-rows.1) v.indexed,
      );
      live = λ key h. ground (
        arith,
        registered-rows,
        registered-signed_in key,
        v.live key,
        eq_iff row.api_key key,
        eq_iff key row.api_key,
      );
    }

  -- A device that is deleted without a failure.
  module _ (user id : String) (s : State)
      (done : (device_delete d1 kv stringify Json parse user id s).0 ≡ value (ok 200 tt)) where
    abbrev pub deleted : State
    deleted = (device_delete d1 kv stringify Json parse user id s).1

    -- The row that the delete found, and what became of the table and the key.
    abbrev Deletes : DeviceInternal → Type 0
    Deletes r =
        Mem r (rows s.devices)
        × (owned_device id user r ≡ true)
        × (rows deleted.devices ≡ filter (λ x. not (owned_device id user x)) (rows s.devices))
        × ((key : String)
            → signed_in deleted key ≡ (if r.api_key == key then none else signed_in s key))

    deleted_row :
        (rs : List DeviceInternal)
        → select (owned_device id user) s.devices ≡ some rs
        → (r : DeviceInternal) × Deletes r
    unfolding device_delete
    deleted_row [] e = ground arith
    deleted_row (r ∷ rs) e = elim (Option-cases (delete (owned_device id user) s.devices)) [
      | inl f ↦ ground arith
      | inr (t, f) ↦
          let found =
            first_some (owned_device id user) (rows s.devices)
              (select_lem (owned_device id user) s.devices e) refl in
          (
            r,
            (
              found.0,
              found.1,
              ground (arith, delete_lem (owned_device id user) s.devices f),
              λ key. ground (
                arith,
                delete_done (device_key id) s.keys (apikey_key key),
                delete_done (apikey_key r.api_key) (forget (device_key id) s.keys).0
                    (apikey_key key),
                delete_done (owner_key user id)
                    (forget (apikey_key r.api_key) (forget (device_key id) s.keys).0).0
                    (apikey_key key),
                device-eq-apikey id key,
                apikey-eq-apikey r.api_key key,
                owner-eq-apikey id key user,
              ),
            ),
          )
    ]

    deleted_row_found : (r : DeviceInternal) × Deletes r
    unfolding device_delete
    deleted_row_found = elim (Option-cases (select (owned_device id user) s.devices)) [
      | inl e ↦ ground arith
      | inr (rs, e) ↦ deleted_row rs e
    ]

    IsIndexed-after :
        (r : DeviceInternal)
        → Deletes r
        → (rs : List DeviceInternal) → All (Agrees id user r) rs
        → All (IsIndexed (signed_in s)) rs
        → All (IsIndexed (signed_in deleted)) (filter (λ x. not (owned_device id user x)) rs)
    IsIndexed-after r d [] a h = tt
    IsIndexed-after r d (x ∷ rs) (p, a) (q, h) =
        ground (arith, d.3 x.api_key, IsIndexed-after r d rs a h)

    -- A delete that answers 200 keeps the table and the API keys consistent: the key of the device that
    -- is gone signs in no more, and every other still signs in its device.
    pub device_delete-IsConsistent : IsConsistent s → IsConsistent deleted
    device_delete-IsConsistent v =
        let (r, d) = deleted_row_found in
        let agrees = owned-Agrees id user r d.1 (rows s.devices) v.distinct d.0 in
        record {
          distinct = rw d.2 (filter-Distinct _ (rows s.devices) v.distinct);
          indexed = rw d.2 (IsIndexed-after r d (rows s.devices) agrees v.indexed);
          live = λ key h. rw d.2 (
              ground (
                arith,
                d.3 key,
                v.live key,
                any-filter_key r.api_key key (owned_device id user) (rows s.devices),
                agrees,
              ));
        }
