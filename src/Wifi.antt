-- ===== src/Wifi.antt =====
-- packages/schema/src/endpoints/wifi: the radios and the networks of a device. Neither update keeps
-- anything: it answers constants with the given fields over them. A difference of times is 0 where the
-- source's would be negative, which is so in the first two days of 1970 alone.
pub mod Radios
pub mod Networks
pub mod Answers
mod Tests
use ngfw_sh.Prelude.{leb, ℕ, zero, suc, Bool, true, ◌&&◌, Option, none, some}

-- `z.number().int()`.
pub data ℤ : Type 0 where
  pos : ℕ → ℤ
  negsuc : ℕ → ℤ

-- `n - 1`.
abbrev pub pred : ℤ → ℤ
pred (pos zero) = negsuc 0
pred (pos (suc n)) = pos n
pred (negsuc n) = negsuc (suc n)

abbrev pub in_range : ℕ → ℕ → ℕ → Bool
in_range low high n = leb low n && leb n high

pub data WifiBand : Type 0 where
  band_2_4ghz band_5ghz band_6ghz : WifiBand

pub data WifiChannelWidth : Type 0 where
  width_20 width_40 width_80 width_160 : WifiChannelWidth

pub data WifiSecurityMode : Type 0 where
  open_mode wpa2 wpa3 wpa2_wpa3 : WifiSecurityMode
