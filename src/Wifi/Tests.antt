-- ===== src/Wifi/Tests.antt =====
-- packages/schema/src/endpoints/wifi on an update of a radio and of two networks.
use ngfw_sh.Prelude.{refl, true, none, some, [], ◌∷◌, String}
use ngfw_sh.Wifi.{ℤ, pos, negsuc, wpa3}
use ngfw_sh.Wifi.Radios.{RadioUpdate, two_letters, wifi_radios_read, wifi_radios_update}
use ngfw_sh.Wifi.Networks.{NetworkUpdate, ssid_text, wifi_networks_read, wifi_networks_update}
use ngfw_sh.Wifi.Answers.{Answers, IsRadioOf, IsNetworkOf, AreOn, update-Answers_read}

abbrev number_text : ℤ → String
number_text (pos n) = "1"
number_text (negsuc n) = "-1"

abbrev second_radio : RadioUpdate
second_radio = record {
  id = pos 2;
  interface = none;
  band = none;
  enabled = none;
  channel = some 196;
  channel_width = none;
  tx_power = none;
  country_code = some "NL";
}

abbrev guest : NetworkUpdate
guest = record {
  id = pos 3;
  radio_id = some (pos 2);
  ssid = some "Guest";
  enabled = none;
  hidden = none;
  security_mode = none;
  password = none;
  vlan_id = some 4094;
  guest_network = some true;
  max_clients = none;
}

abbrev office : NetworkUpdate
office = record guest { id = pos 4; security_mode = some wpa3; password = some "secret" }

update-Answers_read_example :
    Answers IsRadioOf (second_radio ∷ []) (wifi_radios_update number_text 9 (second_radio ∷ []))
    × Answers IsNetworkOf (guest ∷ office ∷ []) (wifi_networks_update 9 (guest ∷ office ∷ []))
    × AreOn (wifi_radios_read 9) (wifi_networks_read 9)
unfolding two_letters ssid_text
update-Answers_read_example =
    update-Answers_read number_text 9 (second_radio ∷ []) (guest ∷ office ∷ []) (refl, tt)
      (refl, (refl, tt))
