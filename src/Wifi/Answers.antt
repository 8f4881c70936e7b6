-- ===== src/Wifi/Answers.antt =====
-- What the handlers of packages/schema/src/endpoints/wifi answer.
use ngfw_sh.Prelude.{
  both, eqb, or_else, any, All, ℕ, ◌≤◌, String, ◌≡◌, refl, Bool, true, false, Option, none, some,
  List, [], ◌∷◌, arith,
}
use ngfw_sh.Platform.Http.{Reply, ok, refused}
use ngfw_sh.Prelude.Pairs.{Pairwise, Pairwise-map}
use ngfw_sh.DeviceConfig.Answers.{in-or_else}
use ngfw_sh.Wifi.{ℤ, in_range, pos, negsuc}
use ngfw_sh.Wifi.Radios.{
  WifiRadio, RadioUpdate, two_letters, wifi_radio, radio_update, wifi_radios_read, updated_radio,
  wifi_radios_update,
}
use ngfw_sh.Wifi.Networks.{
  WifiNetwork, NetworkUpdate, ssid_text, wifi_network, network_update, wifi_networks_read,
  updated_network, wifi_networks_update,
}

module _ {A B : Type 0} (R : A → B → Type 0) where
  -- One answer for each item, in their order; a refusal of no items with 400.
  abbrev pub Answers : List A → Reply (List B) → Type 0
  Answers xs (ok status bs) = (status ≡ 200) × Pairwise R xs bs
  Answers xs (refused status message) = (status ≡ 400) × (xs ≡ [])

or_else-or_else : {A : Type 0} (o : Option A) (a : A) → or_else o (or_else o a) ≡ or_else o a
or_else-or_else none a = refl
or_else-or_else (some b) a = refl

abbrev or_null : {A : Type 0} → Option A → Option A → Option A
or_null none d = d
or_null (some a) d = some a

or_null_self : {A : Type 0} (o : Option A) → or_null o o ≡ o
or_null_self none = refl
or_null_self (some a) = refl

-- The radio with the given fields of the update over it.
abbrev radio_over : RadioUpdate → WifiRadio → WifiRadio
radio_over u r = record {
  id = u.id;
  interface = or_else u.interface r.interface;
  band = or_else u.band r.band;
  enabled = or_else u.enabled r.enabled;
  channel = or_else u.channel r.channel;
  channel_width = or_else u.channel_width r.channel_width;
  tx_power = or_else u.tx_power r.tx_power;
  country_code = or_else u.country_code r.country_code;
  updated_at = r.updated_at;
}

abbrev network_over : NetworkUpdate → WifiNetwork → WifiNetwork
network_over u n = record {
  id = u.id;
  radio_id = or_else u.radio_id n.radio_id;
  ssid = or_else u.ssid n.ssid;
  enabled = or_else u.enabled n.enabled;
  hidden = or_else u.hidden n.hidden;
  security_mode = or_else u.security_mode n.security_mode;
  password = or_null u.password n.password;
  vlan_id = or_null u.vlan_id n.vlan_id;
  guest_network = or_else u.guest_network n.guest_network;
  max_clients = or_else u.max_clients n.max_clients;
  created_at = n.created_at;
  updated_at = n.updated_at;
}

abbrev pub IsRadioOf : RadioUpdate → WifiRadio → Type 0
IsRadioOf u r = (wifi_radio r ≡ true) × (radio_over u r ≡ r)

abbrev pub IsNetworkOf : NetworkUpdate → WifiNetwork → Type 0
IsNetworkOf u n = (wifi_network n ≡ true) × (network_over u n ≡ n) × (n.created_at ≤ n.updated_at)

updated_radio_lem :
    (number_text : ℤ → String) (now : ℕ) (u : RadioUpdate)
    → radio_update u ≡ true
    → IsRadioOf u (updated_radio number_text now u)
unfolding two_letters
updated_radio_lem number_text now u h =
    let (two, country) = both _ _ h in
    let (channel, power) = both _ _ two in
    (
      rw (in-or_else (in_range 1 196) u.channel 6 channel refl) (
          rw (in-or_else (in_range 1 30) u.tx_power 20 power refl)
            (in-or_else two_letters u.country_code "US" country refl)),
      simp (or_else-or_else),
    )

updated_network_lem :
    (now : ℕ) (u : NetworkUpdate) → network_update u ≡ true → IsNetworkOf u (updated_network now u)
unfolding ssid_text
updated_network_lem now u h =
    let (two, clients) = both _ _ h in
    let (ssid, vlan) = both _ _ two in
    (
      rw (in-or_else ssid_text u.ssid "MyNetwork" ssid refl)
          (rw vlan (in-or_else (in_range 1 250) u.max_clients 50 clients refl)),
      simp (or_else-or_else, or_null_self),
      omega arith,
    )

abbrev same_int : ℤ → ℤ → Bool
same_int (pos m) (pos n) = eqb m n
same_int (negsuc m) (negsuc n) = eqb m n
same_int (pos m) (negsuc n) = false
same_int (negsuc m) (pos n) = false

-- The networks that are read meet their schema and are on the radios that are read, which meet theirs.
abbrev pub AreOn : Reply (List WifiRadio) → Reply (List WifiNetwork) → Type 0
AreOn (ok s rs) (ok t ns) =
    All (λ r. wifi_radio r ≡ true) rs
    × All (λ n. (wifi_network n ≡ true) × (any (λ r. same_int r.id n.radio_id) rs ≡ true)) ns
AreOn (ok s rs) (refused t message) = ⊥
AreOn (refused s message) (ok t ns) = ⊥
AreOn (refused s message) (refused t why) = ⊥

update-Answers :
    (number_text : ℤ → String) (now : ℕ) (us : List RadioUpdate)
    → All (λ u. radio_update u ≡ true) us
    → Answers IsRadioOf us (wifi_radios_update number_text now us)
unfolding wifi_radios_update
update-Answers number_text now [] h = (refl, refl)
update-Answers number_text now (u ∷ us) h = (
  refl,
  Pairwise-map IsRadioOf (updated_radio number_text now) radio_update
      (updated_radio_lem number_text now) (u ∷ us) h,
)

networks_update-Answers :
    (now : ℕ) (us : List NetworkUpdate)
    → All (λ u. network_update u ≡ true) us
    → Answers IsNetworkOf us (wifi_networks_update now us)
unfolding wifi_networks_update
networks_update-Answers now [] h = (refl, refl)
networks_update-Answers now (u ∷ us) h = (
  refl,
  Pairwise-map IsNetworkOf (updated_network now) network_update (updated_network_lem now) (u ∷ us)
      h,
)

-- For bodies that meet their schemas, an update of radios and one of networks answer one item for each of
-- the body's, in their order, that meets its schema and has the given fields, or refuse an empty list with
-- 400; a network was not updated before it was created. The radios and the networks that are read meet
-- their schemas, and each network is on one of the radios.
pub update-Answers_read :
    (number_text : ℤ → String) (now : ℕ) (us : List RadioUpdate) (vs : List NetworkUpdate)
    → All (λ u. radio_update u ≡ true) us
    → All (λ v. network_update v ≡ true) vs
    → Answers IsRadioOf us (wifi_radios_update number_text now us)
      × Answers IsNetworkOf vs (wifi_networks_update now vs)
      × AreOn (wifi_radios_read now) (wifi_networks_read now)
unfolding wifi_radios_read wifi_networks_read two_letters ssid_text
update-Answers_read number_text now us vs hu hv = (
  update-Answers number_text now us hu,
  networks_update-Answers now vs hv,
  ((refl, (refl, tt)), ((refl, refl), ((refl, refl), ((refl, refl), tt)))),
)
