-- ===== src/VpnServer/Tests.antt =====
-- What the handlers of packages/schema/src/endpoints/vpn-server answer.
use ngfw_sh.Prelude.{◌≡◌, refl, none, some}
use ngfw_sh.Platform.Http.{error, ok, refused}
use ngfw_sh.VpnServer.{VpnServerConfigUpdate, peer_delete, valid_update, config_update}

abbrev renumbering : VpnServerConfigUpdate
renumbering = record {
  enabled = none;
  listen_port = none;
  network = some "10.8.0.0/24";
  public_key = none;
  private_key = none;
  dns = none;
  mtu = some 1380;
  persistent_keepalive = none;
}

missing_test : peer_delete "peer-not-found" ≡ refused 404 (error "Peer not found")
unfolding peer_delete
missing_test = refl

deleted_test : peer_delete "peer-1" ≡ ok 200 tt
unfolding peer_delete
deleted_test = refl

small_test :
    config_update (record renumbering { mtu = some 1279 })
    ≡ refused 400 (error "Input Validation Error")
unfolding config_update valid_update
small_test = refl
