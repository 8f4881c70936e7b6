-- ===== src/VpnServer/Answers.antt =====
-- What an update of the server of packages/schema/src/endpoints/vpn-server answers.
use ngfw_sh.Prelude.{
  Given, Given-or_else, Bool-cases, or_else, inl, inr, ◌≡◌, refl, ℕ, String, true, false, ◌&&◌,
  Option, none, some, both,
}
use ngfw_sh.Platform.Http.{Reply, ok, refused}
use ngfw_sh.VpnServer.{
  VpnServerConfig, VpnServerConfigUpdate, valid_config, valid_update, parsed, config_update,
  bounded, within, updated,
}

-- The given fields are kept, and the server is off unless the body says that it is on.
abbrev IsUpdate : VpnServerConfigUpdate → Reply VpnServerConfig → Type 0
IsUpdate b (ok status c) =
    (valid_config c ≡ true)
    × (c.enabled ≡ or_else b.enabled false)
    × Given b.listen_port c.listen_port
    × Given b.network c.network
    × Given b.public_key c.public_key
IsUpdate b (refused status message) = (status ≡ 400) × (valid_update b ≡ false)

within-or_else :
    (low high : ℕ) (o : Option ℕ) (d : ℕ)
    → bounded low high o ≡ true
    → within low high d ≡ true
    → within low high (or_else o d) ≡ true
within-or_else low high none d h k = k
within-or_else low high (some n) d h k = h

updated_valid :
    (b : VpnServerConfigUpdate) → valid_update b ≡ true → valid_config (updated (parsed b)) ≡ true
unfolding valid_update valid_config parsed
updated_valid b h =
    let (pm, k) =
      both (bounded 1 65535 b.listen_port && bounded 1280 1500 b.mtu)
        (bounded 0 65535 b.persistent_keepalive) h in
    let (p, m) = both (bounded 1 65535 b.listen_port) (bounded 1280 1500 b.mtu) pm in
    rw
      (
        within-or_else 1 65535 b.listen_port 51820 p refl,
        within-or_else 1280 1500 b.mtu 1420 m refl,
        within-or_else 0 65535 b.persistent_keepalive 25 k refl,
      )
      refl

-- An update whose numbers are within the schema's bounds answers a configuration within them, with the
-- given port, network and public key, that is enabled only if the body says so; any other is refused as
-- invalid.
config_update-IsUpdate : (b : VpnServerConfigUpdate) → IsUpdate b (config_update b)
unfolding config_update parsed
config_update-IsUpdate b = elim (Bool-cases (valid_update b)) [
  | inl h ↦ rw h (
    updated_valid b h,
    refl,
    Given-or_else b.listen_port 51820,
    Given-or_else b.network "10.0.0.0/24",
    Given-or_else b.public_key "mocked-server-public-key-base64",
  )
  | inr h ↦ rw h (refl, h)
]

-- The answer does not depend on the private key.
private_key_unanswered :
    (b : VpnServerConfigUpdate) (key : Option String)
    → config_update (record b { private_key = key }) ≡ config_update b
unfolding config_update valid_update parsed
private_key_unanswered b key = refl
