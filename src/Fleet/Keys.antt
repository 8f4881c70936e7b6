-- ===== src/Fleet/Keys.antt =====
-- The keys that packages/schema/src/endpoints/fleet writes in the namespace DEVICES.
use Prim.Native.Char.{code}
use text.Mathlib.TextEquality.{eq_iff}
use text.Mathlib.TextLemmas.{append_inj, append_cancel_left, cons-append}
use ngfw_sh.Prelude.{◌==◌, ℕ, String, ◌≡◌, refl, ap, ◌≢◌, false, arith}
use ngfw_sh.Fleet.{device_key, apikey_key, owner_key}

first : String → ℕ
first String.[] = 0
first (String.◌∷◌ c s) = code c

module _ (a b : String) where
  device_ne_apikey : device_key a ≢ apikey_key b
  device_ne_apikey e =
      let same = (append_inj e refl).0 in ground (arith, eq_iff "device:" "apikey:")

  pub device-eq-apikey : (device_key a == apikey_key b) ≡ false
  device-eq-apikey = ground (arith, eq_iff (device_key a) (apikey_key b), device_ne_apikey)

  pub apikey-eq-apikey : (apikey_key a == apikey_key b) ≡ (a == b)
  apikey-eq-apikey =
      ground
        (arith, eq_iff (apikey_key a) (apikey_key b), eq_iff a b, append_cancel_left "apikey:" a b)

  first_owner : (c : String) → first (owner_key c a) ≡ b'o'
  unfolding first
  first_owner c = rw (cons-append "o" "wner:" _)

  first_apikey : first (apikey_key b) ≡ b'a'
  unfolding first
  first_apikey = rw cons-append

  owner_ne_apikey : (c : String) → owner_key c a ≢ apikey_key b
  owner_ne_apikey c e = absurd (omega (arith, ap first e, first_owner c, first_apikey))

  pub owner-eq-apikey : (c : String) → (owner_key c a == apikey_key b) ≡ false
  owner-eq-apikey c = ground (arith, eq_iff (owner_key c a) (apikey_key b), owner_ne_apikey c)
