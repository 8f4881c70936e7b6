-- ===== src/VpnClient.antt =====
-- packages/schema/src/endpoints/vpn-client: a user's profiles in the D1 table
-- `vpn_client_profiles`, and the two handlers that change a profile's status.
pub mod Transitions
mod Tests
use Prim.Native.String.{◌++◌}
use ngfw_sh.Prelude.{
  leb, ◌==◌, if◌then◌else◌, head?, ℕ, String, Bool, true, false, ◌&&◌, Option, none, some, List,
}
use ngfw_sh.Prelude.Text
use ngfw_sh.Platform.Http.{Reply, M, ◌>>=◌, ◌>>◌, answer, refuse, await, execute}
use ngfw_sh.Platform.Database.{Database}

-- `vpnProfileType`.
pub data VpnProfileType : Type 0 where
  wireguard openvpn : VpnProfileType

-- `vpnProfileStatus`.
pub data VpnProfileStatus : Type 0 where
  connected disconnected connecting error : VpnProfileStatus

-- `wireguardConfig`.
pub record WireguardConfig : Type 0 where
  pub private_key : String
  pub public_key : String
  pub address : String
  pub dns : Option (List String)
  pub endpoint : String
  pub allowed_ips : List String
  pub persistent_keepalive : Option ℕ
  pub preshared_key : Option String
  pub mtu : Option ℕ

pub data Compress : Type 0 where
  lzo lz4 uncompressed : Compress

-- `openvpnConfig`.
pub record OpenvpnConfig : Type 0 where
  pub config_file : String
  pub auth_user : Option String
  pub auth_pass : Option String
  pub ca_cert : Option String
  pub client_cert : Option String
  pub client_key : Option String
  pub tls_auth : Option String
  pub cipher : Option String
  pub auth_digest : Option String
  pub compress : Option Compress

-- `z.union([wireguardConfig, openvpnConfig])`.
pub data VpnProfileConfig : Type 0 where
  of_wireguard : WireguardConfig → VpnProfileConfig
  of_openvpn : OpenvpnConfig → VpnProfileConfig

-- `vpnClientProfile`: a row of the table.
pub record VpnClientProfile : Type 0 where
  pub id : String
  pub name : String
  pub type : VpnProfileType
  pub config : VpnProfileConfig
  pub status : VpnProfileStatus
  pub auto_connect : Bool
  pub created_at : ℕ
  pub updated_at : ℕ
  pub last_connected : Option ℕ
  pub owner_id : String

-- `vpnClientProfileCreate`.
pub record VpnClientProfileCreate : Type 0 where
  pub name : String
  pub type : VpnProfileType
  pub config : VpnProfileConfig
  pub auto_connect : Bool

abbrev within : ℕ → ℕ → Option ℕ → Bool
within low high none = true
within low high (some n) = leb low n && leb n high

-- The bounds in `wireguardConfig`; `openvpnConfig` has none.
unfoldable pub valid_config : VpnProfileConfig → Bool
valid_config (of_wireguard w) = within 0 65535 w.persistent_keepalive && within 1280 1500 w.mtu
valid_config (of_openvpn o) = true

unfoldable pub valid_create : VpnClientProfileCreate → Bool
unfolding valid_config Text.length
valid_create p = leb 1 (Text.length p.name) && leb (Text.length p.name) 255 && valid_config p.config

pub record StatusReply : Type 0 where
  pub id : String
  pub status : VpnProfileStatus
  pub message : String

-- `profile.status === status`.
abbrev pub same_status : VpnProfileStatus → VpnProfileStatus → Bool
same_status connected connected = true
same_status disconnected disconnected = true
same_status connecting connecting = true
same_status error error = true
same_status _ _ = false

-- `WHERE id = ? AND owner_id = ?` and `WHERE id = ?`.
abbrev pub owned_profile : String → String → VpnClientProfile → Bool
owned_profile id user p = p.id == id && p.owner_id == user

abbrev pub has_id : String → VpnClientProfile → Bool
has_id id p = p.id == id

unfoldable pub start_connecting : ℕ → VpnClientProfile → VpnClientProfile
start_connecting now p = record p { status = connecting; last_connected = some now }

unfoldable pub set_disconnected : VpnClientProfile → VpnClientProfile
set_disconnected p = record p { status = disconnected }

module _ (d1 : Database) where
  open d1 use {Table, select, update}

  abbrev pub Profiles : Type 0
  Profiles = Table VpnClientProfile

  -- `now` is `Date.now()`.
  unfoldable pub connect : String → String → ℕ → M Profiles (Reply StatusReply)
  unfolding start_connecting
  connect user id now = do
    found ← await (select (owned_profile id user))
    elim (head? found) [
      | none ↦ refuse 404 "VPN profile not found"
      | some profile ↦
          let go : M Profiles (Reply StatusReply) =
            execute (update (has_id id) (start_connecting now))
            >> answer 200 (record {
              id = profile.id;
              status = connecting;
              message = "Initiating connection to " ++ profile.name;
            }) in
          if same_status profile.status connected
          then refuse 409 "Profile is already connected"
          else go
    ]

  unfoldable pub disconnect : String → String → M Profiles (Reply StatusReply)
  unfolding set_disconnected
  disconnect user id = do
    found ← await (select (owned_profile id user))
    elim (head? found) [
      | none ↦ refuse 404 "VPN profile not found"
      | some profile ↦
          let go : M Profiles (Reply StatusReply) =
            execute (update (has_id id) set_disconnected)
            >> answer 200 (record {
              id = profile.id;
              status = disconnected;
              message = "Disconnected from " ++ profile.name;
            }) in
          if same_status profile.status disconnected
          then refuse 409 "Profile is already disconnected"
          else go
    ]

-- What a user asks of a profile.
pub data StatusRequest : Type 0 where
  connects : ℕ → StatusRequest
  disconnects : StatusRequest

module _ (d1 : Database) where
  unfoldable pub ask : String → String → StatusRequest → M (Profiles d1) (Reply StatusReply)
  ask user id (connects now) = connect d1 user id now
  ask user id disconnects = disconnect d1 user id
