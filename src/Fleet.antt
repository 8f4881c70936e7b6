-- ===== src/Fleet.antt =====
-- packages/schema/src/endpoints/fleet: the devices of each user, in the D1 table `devices` and in
-- the KV namespaces DEVICES and CONFIGS.
pub mod Keys
pub mod Isolation
pub mod Unique
pub mod Invariant
pub mod Consistency
pub mod Replies
pub mod Revocation
mod Tests
use Prim.Native.String.{◌++◌}
use ngfw_sh.Prelude.{
  leb, ◌==◌, truthy, head?, ℕ, ◌/◌, String, Bool, true, ◌&&◌, ◌||◌, Option, none, some, List, [],
  ◌∷◌, map,
}
use ngfw_sh.Prelude.Text
use ngfw_sh.Prelude.Hex.{hex}
use ngfw_sh.Platform.Http.{Reply, M, ◌>>=◌, ◌>>◌, answer, refuse, await, validated, execute, all_of}
use ngfw_sh.Platform.Database.{Database}
use ngfw_sh.Platform.Kv.{Kv}

-- `deviceInternal`: a row of the table.
pub record DeviceInternal : Type 0 where
  pub id : String
  pub name : String
  pub model : Option String
  pub serial : Option String
  pub owner_id : String
  pub firmware_version : Option String
  pub status : String
  pub api_key : String
  pub created_at : ℕ
  pub last_seen : Option ℕ

-- `device`: what is shown of it.
pub record Device : Type 0 where
  pub id : String
  pub name : String
  pub model : Option String
  pub serial : Option String
  pub owner_id : String
  pub firmware_version : Option String
  pub status : String
  pub created_at : ℕ
  pub last_seen : Option ℕ

-- `deviceInternal.omit({ api_key: true })`, and the columns that the queries of a device name.
unfoldable pub device : DeviceInternal → Device
device r = record {
  id = r.id;
  name = r.name;
  model = r.model;
  serial = r.serial;
  owner_id = r.owner_id;
  firmware_version = r.firmware_version;
  status = r.status;
  created_at = r.created_at;
  last_seen = r.last_seen;
}

pub record RegisterBody : Type 0 where
  pub name : String
  pub model : Option String

-- `registerBody`.
unfoldable pub register_body : RegisterBody → Bool
unfolding Text.length
register_body b =
    leb 1 (Text.length b.name)
    && leb (Text.length b.name) 255
    && elim b.model [ none ↦ true | some m ↦ leb (Text.length m) 255 ]

-- What a request brings besides its body: `Date.now()`, `crypto.randomUUID()` and the sixteen
-- bytes of `crypto.getRandomValues`.
pub record Draw : Type 0 where
  pub now : ℕ
  pub uuid : String
  pub bytes : List ℕ

pub record Registered : Type 0 where
  pub device : Device
  pub api_key : String
  pub websocket_url : String

-- The unique indexes of the table: its primary key and `idx_devices_api_key`.
abbrev pub same_device : DeviceInternal → DeviceInternal → Bool
same_device r x = r.id == x.id || r.api_key == x.api_key

abbrev pub device_key : String → String
device_key id = "device:" ++ id

abbrev pub apikey_key : String → String
apikey_key key = "apikey:" ++ key

abbrev pub owner_key : String → String → String
owner_key user id = "owner:" ++ user ++ ":" ++ id

unfoldable pub new_api_key : List ℕ → String
new_api_key bytes = "ngfw_" ++ hex bytes

abbrev pub new_device : Draw → String → RegisterBody → DeviceInternal
new_device draw user body = record {
  id = draw.uuid;
  name = body.name;
  model = body.model;
  serial = none;
  owner_id = user;
  firmware_version = none;
  status = "provisioning";
  api_key = new_api_key draw.bytes;
  created_at = draw.now / 1000;
  last_seen = none;
}

-- `WHERE id = ? AND owner_id = ?`.
abbrev pub owned_device : String → String → DeviceInternal → Bool
owned_device id user r = r.id == id && r.owner_id == user

-- The routes of `fleetRouter`, with what each request brings.
pub data FleetRequest : Type 0 where
  list_devices : FleetRequest
  register : Draw → RegisterBody → FleetRequest
  delete_device : String → FleetRequest
  read_status : ℕ → String → FleetRequest

-- `JSON.stringify` of a device record and `JSON.parse`.
module _ (d1 : Database) (kv : Kv) (stringify : Device → String) (Json : Type 0)
    (parse : String → Option Json) where
  open d1 use {Table, select, insert, delete}
  open kv use {Store, get, put, delete as forget}

  pub record Fleet : Type 0 where
    pub devices : Table DeviceInternal
    pub keys : Store String
    pub configs : Store String

  pub record DeviceStatus : Type 0 where
    pub device : Device
    pub connection : Option Json
    pub metrics : Option Json

  abbrev pub with_devices : Fleet → Option (Table DeviceInternal) → Option Fleet
  with_devices s none = none
  with_devices s (some t) = some (record s { devices = t })

  abbrev pub with_keys : (Store String → Store String × Bool) → Fleet → Fleet × Bool
  with_keys f s = let r = f s.keys in (record s { keys = r.0 }, r.1)

  unfoldable pub device_register : Draw → String → RegisterBody → M Fleet (Reply Registered)
  unfolding register_body device new_api_key
  device_register draw user body = validated (register_body body) do
    let row = new_device draw user body
    execute (λ s. with_devices s (insert same_device row s.devices))
    all_of (with_keys (put (device_key row.id) (stringify (device row), none)))
        (with_keys (put (apikey_key row.api_key) (row.id, none)))
        (with_keys (put (owner_key user row.id) ("1", none)))
    answer 201 (record {
      device = device row;
      api_key = row.api_key;
      websocket_url = "wss://api.ngfw.sh/agent/ws";
    })

  unfoldable pub device_delete : String → String → M Fleet (Reply (Unit {0}))
  device_delete user id = do
    found ← await (λ s. select (owned_device id user) s.devices)
    elim (head? found) [
      | none ↦ refuse 404 "Device not found"
      | some row ↦ do
        execute (λ s. with_devices s (delete (owned_device id user) s.devices))
        all_of (with_keys (forget (device_key id))) (with_keys (forget (apikey_key row.api_key)))
            (with_keys (forget (owner_key user id)))
        answer 200 tt
    ]

  unfoldable pub device_list : String → M Fleet (Reply (List Device))
  unfolding device
  device_list user = do
    found ← await (λ s. select (λ r. r.owner_id == user) s.devices)
    answer 200 (map device found)

  -- `raw ? JSON.parse(raw) : null`.
  abbrev parsed : Option String → Option (Option Json)
  parsed none = some none
  parsed (some text) = elim (parse text) [ none ↦ none | some j ↦ some (some j) ]

  unfoldable pub device_status : ℕ → String → String → M Fleet (Reply DeviceStatus)
  unfolding device
  device_status now user id = do
    found ← await (λ s. select (owned_device id user) s.devices)
    elim (head? found) [
      | none ↦ refuse 404 "Device not found"
      | some row ↦ do
        connection_raw ← await (λ s. get ("device_status:" ++ id) now s.keys)
        status_raw ← await (λ s. get ("status:" ++ id) now s.configs)
        connection ← await (λ s. parsed (truthy connection_raw))
        metrics ← await (λ s. parsed (truthy status_raw))
        answer 200 (record { device = device row; connection = connection; metrics = metrics })
    ]

  -- `fleetRouter`: what the user whom `clerkAuth` let in asks for, and the state afterwards. A
  -- request that throws leaves what it had written.
  unfoldable pub serve : String → FleetRequest → Fleet → Fleet
  unfolding device_register device_delete device_list device_status
  serve user list_devices s = (device_list user s).1
  serve user (register draw body) s = (device_register draw user body s).1
  serve user (delete_device id) s = (device_delete user id s).1
  serve user (read_status now id) s = (device_status now user id s).1

  unfoldable pub serve_all : List (String × FleetRequest) → Fleet → Fleet
  serve_all [] s = s
  serve_all ((user, q) ∷ qs) s = serve_all qs (serve user q s)
