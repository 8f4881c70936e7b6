-- ===== src/Wifi/Radios.antt =====
-- packages/schema/src/endpoints/wifi/radiosRead.ts and radiosUpdate.ts.
use ngfw_sh.Prelude.{eqb, or_else, ℕ, String, Bool, true, ◌&&◌, Option, List, [], ◌∷◌, map}
use ngfw_sh.Prelude.Text.{length, append}
use ngfw_sh.Platform.Http.{error, Reply, ok, refused}
use ngfw_sh.DeviceConfig.{all_in}
use ngfw_sh.Wifi.{
  ℤ, pred, in_range, WifiBand, WifiChannelWidth, pos, band_2_4ghz, band_5ghz, width_20, width_80,
}

pub record WifiRadio : Type 0 where
  pub id : ℤ
  pub interface : String
  pub band : WifiBand
  pub enabled : Bool
  pub channel : ℕ
  pub channel_width : WifiChannelWidth
  pub tx_power : ℕ
  pub country_code : String
  pub updated_at : ℕ

-- An item of the body's `radios`.
pub record RadioUpdate : Type 0 where
  pub id : ℤ
  pub interface : Option String
  pub band : Option WifiBand
  pub enabled : Option Bool
  pub channel : Option ℕ
  pub channel_width : Option WifiChannelWidth
  pub tx_power : Option ℕ
  pub country_code : Option String

unfoldable pub two_letters : String → Bool
unfolding length
two_letters s = eqb (length s) 2

abbrev pub wifi_radio : WifiRadio → Bool
wifi_radio r = in_range 1 196 r.channel && in_range 1 30 r.tx_power && two_letters r.country_code

abbrev pub radio_update : RadioUpdate → Bool
radio_update u =
    all_in (in_range 1 196) u.channel
    && all_in (in_range 1 30) u.tx_power
    && all_in two_letters u.country_code

unfoldable pub wifi_radios_read : ℕ → Reply (List WifiRadio)
wifi_radios_read now = ok 200 (
    record {
      id = pos 1;
      interface = "radio0";
      band = band_2_4ghz;
      enabled = true;
      channel = 6;
      channel_width = width_20;
      tx_power = 20;
      country_code = "US";
      updated_at = now;
    }
    ∷ record {
      id = pos 2;
      interface = "radio1";
      band = band_5ghz;
      enabled = true;
      channel = 36;
      channel_width = width_80;
      tx_power = 23;
      country_code = "US";
      updated_at = now;
    }
    ∷ [])

-- `number_text` is the text of a number in a template.
abbrev pub updated_radio : (ℤ → String) → ℕ → RadioUpdate → WifiRadio
updated_radio number_text now u = record {
  id = u.id;
  interface = or_else u.interface (append "radio" (number_text (pred u.id)));
  band = or_else u.band band_2_4ghz;
  enabled = or_else u.enabled true;
  channel = or_else u.channel 6;
  channel_width = or_else u.channel_width width_20;
  tx_power = or_else u.tx_power 20;
  country_code = or_else u.country_code "US";
  updated_at = now;
}

unfoldable pub wifi_radios_update : (ℤ → String) → ℕ → List RadioUpdate → Reply (List WifiRadio)
wifi_radios_update number_text now [] = refused 400 (error "No radios to update")
wifi_radios_update number_text now (u ∷ us) = ok 200 (map (updated_radio number_text now) (u ∷ us))
