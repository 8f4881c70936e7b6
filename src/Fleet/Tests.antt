-- ===== src/Fleet/Tests.antt =====
-- packages/schema/src/endpoints/fleet over tables in memory.
use text.Mathlib.TextEquality.{eq_iff}
use ngfw_sh.Prelude.{
  ◌==◌, filter, String, ◌≡◌, refl, ◌≢◌, Option, none, some, List, [], ◌∷◌, map, Perm, arith,
}
use ngfw_sh.Prelude.Hex.{hex_byte, hex}
use ngfw_sh.Platform.Http.{errors, on_error, refused}
use ngfw_sh.Platform.Memory.{memory_database, faulty_kv, memory_kv}
use ngfw_sh.Platform.Kv.{Kv}
use ngfw_sh.Fleet.{
  DeviceInternal, Device, device, RegisterBody, Draw, new_api_key, owned_device, FleetRequest,
  Fleet, device_register, device_delete, device_list, serve, serve_all, list_devices, register,
  delete_device,
}
use ngfw_sh.Fleet.Isolation.{of_owner, serve_all-of_owner}
use ngfw_sh.Fleet.Keys.{apikey-eq-apikey}
use ngfw_sh.Fleet.Invariant.{signed_in, IsConsistent}
use ngfw_sh.Fleet.Consistency.{serve_all-IsConsistent}
use ngfw_sh.Fleet.Replies.{IsShown, device_list_lem}
use ngfw_sh.Fleet.Revocation.{device_delete_unrevoked}

abbrev stringify : Device → String
stringify d = d.name

abbrev parse : String → Option String
parse text = some text

abbrev State₀ : Type 0
State₀ = Fleet memory_database memory_kv stringify String parse

abbrev nothing : State₀
nothing = record { devices = []; keys = []; configs = [] }

abbrev draw : Draw
draw = record { now = 1_700_000_000_000; uuid = "d1"; bytes = 0 ∷ 15 ∷ 16 ∷ 255 ∷ [] }

abbrev body : RegisterBody
body = record { name = "home"; model = none }

-- A device of another user.
abbrev neighbour : DeviceInternal
neighbour = record {
  id = "d2";
  name = "office";
  model = none;
  serial = none;
  owner_id = "bob";
  firmware_version = none;
  status = "online";
  api_key = "ngfw_aa";
  created_at = 5;
  last_seen = none;
}

abbrev shared : State₀
shared = record {
  devices = neighbour ∷ [];
  keys = ("apikey:ngfw_aa", ("d2", none)) ∷ [];
  configs = [];
}

abbrev after : State₀
after = (device_register memory_database memory_kv stringify String parse draw "ann" body shared).1

api_key_test : new_api_key draw.bytes ≡ "ngfw_000f10ff"
unfolding new_api_key hex hex_byte
api_key_test = refl

shared-IsConsistent : IsConsistent memory_database memory_kv stringify String parse shared
shared-IsConsistent = record {
  distinct = (refl, tt);
  indexed = (refl, tt);
  live = λ key h. ground (arith, apikey-eq-apikey "ngfw_aa" key);
}

-- A registration, a delete, and a delete of a device that is not there.
abbrev traffic : List (String × FleetRequest)
traffic =
    ("ann", register draw body) ∷ ("bob", delete_device "d2") ∷ ("ann", delete_device "d2") ∷ []

serve_all-IsConsistent_example :
    IsConsistent memory_database memory_kv stringify String parse
      (serve_all memory_database memory_kv stringify String parse traffic shared)
unfolding serve hex hex_byte
serve_all-IsConsistent_example =
    serve_all-IsConsistent memory_database memory_kv stringify String parse traffic shared
      (tt, (tt, (tt, tt))) shared-IsConsistent

ann_ne_bob : ◌≢◌ {A = String} "ann" "bob"
ann_ne_bob = ground (arith, eq_iff "ann" "bob")

serve_all-of_owner_example :
    filter (of_owner "bob") (
      memory_database.rows
        (serve_all memory_database memory_kv stringify String parse
          (("ann", register draw body) ∷ ("ann", delete_device "d2") ∷ ("ann", list_devices) ∷ [])
          shared).devices)
    ≡ neighbour ∷ []
serve_all-of_owner_example =
    serve_all-of_owner memory_database memory_kv stringify String parse "bob"
      (("ann", register draw body) ∷ ("ann", delete_device "d2") ∷ ("ann", list_devices) ∷ [])
      shared (ann_ne_bob, (ann_ne_bob, (ann_ne_bob, tt)))

device_list_lem_example :
    Perm (device neighbour ∷ []) (map device (filter (of_owner "bob") (neighbour ∷ [])))
    × ((r : DeviceInternal) → IsShown r (device r))
unfolding device_list
device_list_lem_example =
    device_list_lem memory_database memory_kv stringify String parse "bob" shared refl

-- The namespace refuses to delete the API key.
abbrev jammed : Kv
jammed = faulty_kv (λ k. k == "apikey:ngfw_aa")

abbrev stuck : Fleet memory_database jammed stringify String parse
stuck = record {
  devices = neighbour ∷ [];
  keys = ("apikey:ngfw_aa", ("d2", none)) ∷ [];
  configs = [];
}

device_delete_unrevoked_example :
    let run = device_delete memory_database jammed stringify String parse "bob" "d2" stuck in
    (on_error (λ m. []) run.0 ≡ refused 500 (errors ((7000, "Internal Server Error") ∷ [])))
    × (filter (owned_device "d2" "bob") run.1.devices ≡ [])
    × (signed_in memory_database jammed stringify String parse run.1 "ngfw_aa" ≡ some ("d2", none))
device_delete_unrevoked_example =
    device_delete_unrevoked memory_database jammed stringify String parse (λ m. []) "bob" "d2" stuck
      neighbour [] [] refl refl refl
