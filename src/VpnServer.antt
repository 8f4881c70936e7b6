-- ===== src/VpnServer.antt =====
-- packages/schema/src/endpoints/vpn-server: the handlers for the WireGuard server and its peers, none of
-- which keeps anything. Zod puts the default of a field for a missing one, also in a body whose fields may
-- all be missing. A difference of times is 0 where the source's would be negative, in the first days of
-- 1970 alone.
mod Answers
mod Tests
use ngfw_sh.Prelude.{
  leb, ◌==◌, if◌then◌else◌, or_else, ℕ, ◌-◌, String, Bool, true, false, ◌&&◌, Option, none, some,
  List, [], ◌∷◌,
}
use ngfw_sh.Prelude.Text.{length}
use ngfw_sh.Platform.Http.{error, Reply, ok, refused}

-- `vpnServerConfigPublic`.
pub record VpnServerConfig : Type 0 where
  pub enabled : Bool
  pub listen_port : ℕ
  pub network : String
  pub public_key : String
  pub dns : Option (List String)
  pub mtu : Option ℕ
  pub persistent_keepalive : Option ℕ

-- `vpnServerConfigUpdate`, as it is sent.
pub record VpnServerConfigUpdate : Type 0 where
  pub enabled : Option Bool
  pub listen_port : Option ℕ
  pub network : Option String
  pub public_key : Option String
  pub private_key : Option String
  pub dns : Option (List String)
  pub mtu : Option ℕ
  pub persistent_keepalive : Option ℕ

abbrev pub within : ℕ → ℕ → ℕ → Bool
within low high n = leb low n && leb n high

abbrev pub bounded : ℕ → ℕ → Option ℕ → Bool
bounded low high none = true
bounded low high (some n) = within low high n

-- The bounds of the schemas.
unfoldable pub valid_config : VpnServerConfig → Bool
valid_config c =
    within 1 65535 c.listen_port
    && bounded 1280 1500 c.mtu
    && bounded 0 65535 c.persistent_keepalive

unfoldable pub valid_update : VpnServerConfigUpdate → Bool
valid_update b =
    bounded 1 65535 b.listen_port
    && bounded 1280 1500 b.mtu
    && bounded 0 65535 b.persistent_keepalive

-- What the schema makes of a body.
unfoldable pub parsed : VpnServerConfigUpdate → VpnServerConfigUpdate
parsed b = record b {
  enabled = some (or_else b.enabled false);
  listen_port = some (or_else b.listen_port 51820);
  mtu = some (or_else b.mtu 1420);
  persistent_keepalive = some (or_else b.persistent_keepalive 25);
}

abbrev resolvers : List String
resolvers = "1.1.1.1" ∷ "1.0.0.1" ∷ []

unfoldable pub config_read : Reply VpnServerConfig
config_read = ok 200 record {
  enabled = true;
  listen_port = 51820;
  network = "10.0.0.0/24";
  public_key = "mocked-server-public-key-base64";
  dns = some resolvers;
  mtu = some 1420;
  persistent_keepalive = some 25;
}

abbrev pub updated : VpnServerConfigUpdate → VpnServerConfig
updated b = record {
  enabled = or_else b.enabled true;
  listen_port = or_else b.listen_port 51820;
  network = or_else b.network "10.0.0.0/24";
  public_key = or_else b.public_key "mocked-server-public-key-base64";
  dns = some (or_else b.dns resolvers);
  mtu = some (or_else b.mtu 1420);
  persistent_keepalive = some (or_else b.persistent_keepalive 25);
}

unfoldable pub config_update : VpnServerConfigUpdate → Reply VpnServerConfig
unfolding valid_update parsed
config_update b =
    if valid_update b
    then ok 200 (updated (parsed b))
    else refused 400 (error "Input Validation Error")

pub record VpnServerPeer : Type 0 where
  pub id : String
  pub name : String
  pub public_key : String
  pub preshared_key : Option String
  pub allowed_ips : List String
  pub endpoint : Option String
  pub persistent_keepalive : ℕ
  pub enabled : Bool
  pub created_at : ℕ
  pub last_handshake : Option ℕ
  pub rx_bytes : ℕ
  pub tx_bytes : ℕ

pub record VpnServerPeerCreate : Type 0 where
  pub name : String
  pub public_key : String
  pub preshared_key : Option String
  pub allowed_ips : List String
  pub endpoint : Option String
  pub persistent_keepalive : Option ℕ
  pub enabled : Option Bool

unfoldable pub valid_peer : VpnServerPeerCreate → Bool
unfolding length
valid_peer b = within 1 64 (length b.name) && bounded 0 65535 b.persistent_keepalive

unfoldable pub peer_create : String → ℕ → VpnServerPeerCreate → Reply VpnServerPeer
unfolding valid_peer
peer_create id now b =
    if valid_peer b
    then ok 201 record {
      id = id;
      name = b.name;
      public_key = b.public_key;
      preshared_key = b.preshared_key;
      allowed_ips = b.allowed_ips;
      endpoint = b.endpoint;
      persistent_keepalive = or_else b.persistent_keepalive 25;
      enabled = or_else b.enabled true;
      created_at = now;
      last_handshake = none;
      rx_bytes = 0;
      tx_bytes = 0;
    }
    else refused 400 (error "Input Validation Error")

unfoldable pub peer_delete : String → Reply (Unit {0})
peer_delete id = if id == "peer-not-found" then refused 404 (error "Peer not found") else ok 200 tt

unfoldable pub peer_list : ℕ → Reply (List VpnServerPeer)
peer_list now = ok 200 (
    record {
      id = "peer-1";
      name = "Phone";
      public_key = "mocked-peer-1-public-key-base64";
      preshared_key = some "mocked-preshared-key-base64";
      allowed_ips = "10.0.0.2/32" ∷ [];
      endpoint = none;
      persistent_keepalive = 25;
      enabled = true;
      created_at = now - 86400000;
      last_handshake = some (now - 300000);
      rx_bytes = 8374829123;
      tx_bytes = 5273948234;
    }
    ∷ record {
      id = "peer-2";
      name = "Laptop";
      public_key = "mocked-peer-2-public-key-base64";
      preshared_key = none;
      allowed_ips = "10.0.0.3/32" ∷ [];
      endpoint = none;
      persistent_keepalive = 25;
      enabled = true;
      created_at = now - 172800000;
      last_handshake = some (now - 600000);
      rx_bytes = 12847293847;
      tx_bytes = 9384729384;
    }
    ∷ [])
