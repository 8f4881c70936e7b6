-- ===== src/DeviceConfig.antt =====
-- packages/schema/src/endpoints/wan, lan and dhcp: the configuration of a device's network. A field of an
-- update is missing, or it is given, and then a nullable one may be null.
pub mod Wan
pub mod Lan
pub mod Dhcp
pub mod Answers
mod Tests
use ngfw_sh.Prelude.{Bool, true, false, Option, none, some}
use ngfw_sh.Platform.Http.{Reply, ok, refused}

module _ {A : Type 0} where
  abbrev pub is_missing : Option A → Bool
  is_missing none = true
  is_missing (some a) = false

  -- `updates.x ?? d` for a nullable field: null and undefined are alike.
  abbrev pub or_default : Option (Option A) → Option A → Option A
  or_default none d = d
  or_default (some none) d = d
  or_default (some (some a)) d = some a

  abbrev pub all_in : (A → Bool) → Option A → Bool
  all_in p none = true
  all_in p (some a) = p a

  -- Whether a configuration that is answered meets its schema.
  abbrev pub answers_in : (A → Bool) → Reply A → Bool
  answers_in p (ok status a) = p a
  answers_in p (refused status message) = true
