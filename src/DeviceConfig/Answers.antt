-- ===== src/DeviceConfig/Answers.antt =====
-- What the configuration handlers of packages/schema/src/endpoints/wan, lan and dhcp answer.
use ngfw_sh.Prelude.{
  both, leb, if◌then◌else◌, or_else, ℕ, ◌≡◌, refl, Bool, true, false, ◌&&◌, Option, none, some,
}
use ngfw_sh.Platform.Http.{error, Refusal, ok, refused}
use ngfw_sh.DeviceConfig.{or_default, all_in, answers_in}
use ngfw_sh.DeviceConfig.Wan.{
  WanUpdates, wan_no_fields, wan_valid_config, wan_valid_updates, wan_config_read, wan_mock,
  wan_config_update, wan_over_answer,
}
use ngfw_sh.DeviceConfig.Lan.{
  LanUpdates, lan_no_fields, lan_valid_config, lan_valid_updates, lan_config_read, lan_mock,
  lan_config_update, lan_over_answer,
}
use ngfw_sh.DeviceConfig.Dhcp.{
  DhcpUpdates, dhcp_no_fields, dhcp_valid_config, dhcp_valid_updates, dhcp_config_read, dhcp_mock,
  dhcp_config_update, dhcp_over_answer,
}

module _ {A : Type 0} (p : A → Bool) where
  all_in-or_default :
      (f : Option (Option A)) (d : Option A)
      → all_in (all_in p) f ≡ true
      → all_in p d ≡ true
      → all_in p (or_default f d) ≡ true
  all_in-or_default none d h k = k
  all_in-or_default (some none) d h k = k
  all_in-or_default (some (some a)) d h k = h

  pub in-or_else : (f : Option A) (d : A) → all_in p f ≡ true → p d ≡ true → p (or_else f d) ≡ true
  in-or_else none d h k = k
  in-or_else (some a) d h k = h

  answers_in-refused :
      (b : Bool) (status : ℕ) (message : Refusal) (a : A)
      → p a ≡ true
      → answers_in p (if b then refused 400 message else ok status a) ≡ true
  answers_in-refused true status message a h = refl
  answers_in-refused false status message a h = h

wan_mock_valid :
    (now : ℕ) (u : WanUpdates)
    → wan_valid_updates u ≡ true
    → wan_valid_config (wan_mock now u) ≡ true
wan_mock_valid now u h =
    let (prefix, mtu) = both _ _ h in
    rw (all_in-or_default (λ n. leb n 128) u.ipv6_prefix_length none prefix refl)
      (in-or_else (λ n. leb 576 n && leb n 9000) u.mtu 1500 mtu refl)

lan_mock_valid :
    (now : ℕ) (u : LanUpdates)
    → lan_valid_updates u ≡ true
    → lan_valid_config (lan_mock now u) ≡ true
lan_mock_valid now u h =
    let (prefix, vlan) = both _ _ h in
    rw (all_in-or_default (λ n. leb n 128) u.ipv6_prefix_length none prefix refl)
      (all_in-or_default (λ n. leb 1 n && leb n 4094) u.vlan_id none vlan refl)

-- For updates that meet their schemas, the answers to an update of a WAN, a LAN and a DHCP configuration
-- meet the schemas of the answers, and are what the corresponding read answers with the given fields over
-- it, where a null counts as not given; an update with no field is refused with 400.
config_update-config_read :
    (now : ℕ) (u : WanUpdates) (v : LanUpdates) (w : DhcpUpdates)
    → wan_valid_updates u ≡ true
    → lan_valid_updates v ≡ true
    → dhcp_valid_updates w ≡ true
    → (answers_in wan_valid_config (wan_config_update now u) ≡ true)
      × (answers_in lan_valid_config (lan_config_update now v) ≡ true)
      × (answers_in dhcp_valid_config (dhcp_config_update now w) ≡ true)
      × (wan_config_update now u ≡ wan_over_answer u (wan_config_read now))
      × (lan_config_update now v ≡ lan_over_answer v (lan_config_read now))
      × (dhcp_config_update now w ≡ dhcp_over_answer w (dhcp_config_read now))
unfolding wan_config_update wan_config_read lan_config_update lan_config_read dhcp_config_update
    dhcp_config_read
config_update-config_read now u v w hu hv hw = (
  answers_in-refused wan_valid_config (wan_no_fields u) 200 (error "No fields to update")
      (wan_mock now u) (wan_mock_valid now u hu),
  answers_in-refused lan_valid_config (lan_no_fields v) 200 (error "No fields to update")
      (lan_mock now v) (lan_mock_valid now v hv),
  answers_in-refused dhcp_valid_config (dhcp_no_fields w) 200 (error "No fields to update")
      (dhcp_mock now w) (in-or_else (λ n. leb 60 n) w.lease_time 86400 hw refl),
  refl,
  refl,
  refl,
)
