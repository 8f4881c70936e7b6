-- ===== src/VpnClient/Tests.antt =====
-- packages/schema/src/endpoints/vpn-client over a table in memory.
use ngfw_sh.Prelude.{◌≡◌, refl, false, none, some, [], ◌∷◌}
use ngfw_sh.Platform.Memory.{memory_database}
use ngfw_sh.VpnClient.{
  VpnProfileConfig, VpnClientProfile, valid_create, ask, wireguard, disconnected, of_wireguard,
  connects,
}
use ngfw_sh.VpnClient.Transitions.{Explains, ask-Explains}

abbrev tunnel : VpnProfileConfig
tunnel = of_wireguard (record {
  private_key = "a";
  public_key = "b";
  address = "10.0.0.2/32";
  dns = none;
  endpoint = "vpn.example:51820";
  allowed_ips = "0.0.0.0/0" ∷ [];
  persistent_keepalive = some 25;
  preshared_key = none;
  mtu = some 1420;
})

abbrev work : VpnClientProfile
work = record {
  id = "p1";
  name = "work";
  type = wireguard;
  config = tunnel;
  status = disconnected;
  auto_connect = false;
  created_at = 3;
  updated_at = 3;
  last_connected = none;
  owner_id = "ann";
}

-- A new profile's name is not empty.
valid_create_test :
    valid_create (record { name = ""; type = wireguard; config = tunnel; auto_connect = false })
    ≡ false
unfolding valid_create
valid_create_test = refl

ask-Explains_example :
    Explains memory_database "ann" "p1"
      (connects 8)
      (work ∷ [])
      (ask memory_database "ann" "p1" (connects 8) (work ∷ [])).0
ask-Explains_example = ask-Explains memory_database "ann" "p1" (connects 8) (work ∷ []) (refl, tt)
