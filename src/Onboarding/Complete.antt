-- ===== src/Onboarding/Complete.antt =====
-- What packages/portal-astro/src/components/onboarding/ConfigForm.vue accepts, told without the code.
use text.Mathlib.TextEquality.{eq_iff}
use ngfw_sh.Prelude.{
  both, ltb, Bool-cases, ℕ, ◌≤◌, String, ◌≡◌, refl, sym, ◌∙◌, ◌≢◌, ◌↔◌, inl, inr, Bool, true, false,
  not, ◌&&◌, ◌||◌, Option, none, some, ◌++◌, arith,
}
use ngfw_sh.Prelude.Text.{length}
use ngfw_sh.Prelude.Errors.{error_if, is_nil, is_nil-append, is_nil-error_if, not-false}
use ngfw_sh.Onboarding.{WanType, OnboardingWanConfig, OnboardingConfig, dhcp, static, pppoe, lte}
use ngfw_sh.Onboarding.Texts.{
  is_zip_code, is_phone_number, count_digits, IsZipCode, is_phone_number_iff, is_zip_code_iff,
}
use ngfw_sh.Onboarding.Form.{is_empty, is_falsy, lacks_field, differ, wan_errors, validate_form}

abbrev HasValue : Option String → Type 0
HasValue none = ⊥
HasValue (some s) = s ≢ ""

abbrev HasText : (OnboardingWanConfig → Option String) → Option OnboardingWanConfig → Type 0
HasText field none = ⊥
HasText field (some w) = HasValue (field w)

abbrev pub IsConnected : WanType → Option OnboardingWanConfig → Type 0
IsConnected pppoe w = HasText (λ w. w.username) w × HasText (λ w. w.password) w
IsConnected static w = HasText (λ w. w.ip_address) w × HasText (λ w. w.gateway) w
IsConnected dhcp w = Unit
IsConnected lte w = Unit

pub record IsComplete (c : OnboardingConfig) : Type 0 where
  pub device : 3 ≤ length c.device_name
  pub full_name : c.shipping_address.full_name ≢ ""
  pub address : c.shipping_address.address_line1 ≢ ""
  pub city : c.shipping_address.city ≢ ""
  pub state : c.shipping_address.state ≢ ""
  pub zip : IsZipCode c.shipping_address.zip_code
  pub phone : 10 ≤ count_digits c.shipping_address.phone_number
  pub ssid : (1 ≤ length c.wifi_config.ssid) × (length c.wifi_config.ssid ≤ 32)
  pub wifi_password : 8 ≤ length c.wifi_config.password
  pub admin_password : 8 ≤ length c.admin_password
  pub confirmed : c.admin_password_confirm ≡ some c.admin_password
  pub connected : IsConnected c.wan_type c.wan_config

length_pos : (s : String) → is_empty s ≡ false → 1 ≤ length s
unfolding length
length_pos Prim.Native.String.[] h = ground arith
length_pos (Prim.Native.String.◌∷◌ c s) h = ground arith

length_empty : (s : String) → is_empty s ≡ true → length s ≡ 0
unfolding length
length_empty s h = let e : s ≡ "" = (eq_iff s "").0 h in rw e refl

is_empty_ne : (s : String) → is_empty s ≡ false → s ≢ ""
is_empty_ne s h e = ground (arith, eq_iff s "")

ne_is_empty : (s : String) → s ≢ "" → is_empty s ≡ false
ne_is_empty s h = ground (arith, eq_iff s "")

-- A test for a text that is too short, as the form writes it.
abbrev too_short : ℕ → String → Bool
too_short n s = is_empty s || ltb (length s) n

too_short_iff : (n : ℕ) (s : String) → 1 ≤ n → (too_short n s ≡ false) ↔ (n ≤ length s)
too_short_iff n s p = ((λ h. ground arith), (λ h. ground (arith, length_empty s)))

has_value : (o : Option String) → (is_falsy o ≡ false) ↔ HasValue o
has_value none = ((λ h. cc), (λ h. absurd h))
has_value (some s) = (is_empty_ne s, ne_is_empty s)

has_text :
    (field : OnboardingWanConfig → Option String) (w : Option OnboardingWanConfig)
    → (lacks_field field w ≡ false) ↔ HasText field w
has_text field none = ((λ h. cc), (λ h. absurd h))
has_text field (some w) = has_value (field w)

pair_errors :
    (f g : OnboardingWanConfig → Option String) (w : Option OnboardingWanConfig) (a b c d : String)
    → (is_nil (error_if (lacks_field f w) a b ++ error_if (lacks_field g w) c d) ≡ true)
      ↔ (HasText f w × HasText g w)
pair_errors f g w a b c d =
    rw (is_nil-append (error_if (lacks_field f w) a b) (error_if (lacks_field g w) c d)) (
      rw (is_nil-error_if (lacks_field f w) a b) (
        rw (is_nil-error_if (lacks_field g w) c d) (
          (λ h. ((has_text f w).0 (ground arith), (has_text g w).0 (ground arith))),
          (λ h. rw ((has_text f w).1 h.0) (rw ((has_text g w).1 h.1) refl)),
        )))

wan_errors_iff :
    (t : WanType) (w : Option OnboardingWanConfig)
    → (is_nil (wan_errors t w) ≡ true) ↔ IsConnected t w
wan_errors_iff pppoe w = pair_errors (λ w. w.username) (λ w. w.password) w _ _ _ _
wan_errors_iff static w = pair_errors (λ w. w.ip_address) (λ w. w.gateway) w _ _ _ _
wan_errors_iff dhcp w = ((λ h. tt), (λ h. refl))
wan_errors_iff lte w = ((λ h. tt), (λ h. refl))

confirmed_iff : (s : String) (o : Option String) → (differ s o ≡ false) ↔ (o ≡ some s)
confirmed_iff s none = ((λ h. cc), (λ h. cc))
confirmed_iff s (some t) = ((λ h. ground (arith, eq_iff s t)), (λ h. ground (arith, eq_iff s t)))

fits_iff :
    (s : String) → (is_empty s || ltb 32 (length s) ≡ false) ↔ ((1 ≤ length s) × (length s ≤ 32))
fits_iff s =
    ((λ h. (length_pos s (ground arith), ground arith)), (λ h. ground (arith, length_empty s)))

-- A text that a pattern matches is not empty where the pattern does not match "".
matched :
    (p : String → Bool) (s : String)
    → p "" ≡ false
    → (is_empty s || not (p s) ≡ false) ↔ (p s ≡ true)
matched p s e = (
  (λ h. ground arith),
  (λ h. elim (Bool-cases (is_empty s)) [
    | inl empty ↦ let q : s ≡ "" = (eq_iff s "").0 empty in cc
    | inr filled ↦ rw filled (rw h refl)
  ]),
)

validate_form_eq :
    (c : OnboardingConfig)
    → let a = c.shipping_address in
      let w = c.wifi_config in
      validate_form c ≡ (
        not (too_short 3 c.device_name)
        && not (is_empty a.full_name)
        && not (is_empty a.address_line1)
        && not (is_empty a.city)
        && not (is_empty a.state)
        && not (is_empty a.zip_code || not (is_zip_code a.zip_code))
        && not (is_empty a.phone_number || not (is_phone_number a.phone_number))
        && not (is_empty w.ssid || ltb 32 (length w.ssid))
        && not (too_short 8 w.password)
        && not (too_short 8 c.admin_password)
        && not (differ c.admin_password c.admin_password_confirm)
        && is_nil (wan_errors c.wan_type c.wan_config))
unfolding validate_form
validate_form_eq c = simp (is_nil-append, is_nil-error_if)

zip_iff : (s : String) → (is_empty s || not (is_zip_code s) ≡ false) ↔ IsZipCode s
unfolding is_zip_code
zip_iff s = (
  (λ h. (is_zip_code_iff s).0 ((matched is_zip_code s refl).0 h)),
  (λ h. (matched is_zip_code s refl).1 ((is_zip_code_iff s).1 h)),
)

phone_iff : (s : String) → (is_empty s || not (is_phone_number s) ≡ false) ↔ (10 ≤ count_digits s)
unfolding is_phone_number
phone_iff s = (
  (λ h. (is_phone_number_iff s).0 ((matched is_phone_number s refl).0 h)),
  (λ h. (matched is_phone_number s refl).1 ((is_phone_number_iff s).1 h)),
)

both_true : {a b : Bool} → a ≡ true → b ≡ true → a && b ≡ true
both_true h k = rw h k

validated : (c : OnboardingConfig) → validate_form c ≡ true → IsComplete c
validated c h =
    let k = sym (validate_form_eq c) ∙ h in
    let (k11, e_connected) = both _ _ k in
    let (k10, e_confirmed) = both _ _ k11 in
    let (k9, e_admin_password) = both _ _ k10 in
    let (k8, e_wifi_password) = both _ _ k9 in
    let (k7, e_ssid) = both _ _ k8 in
    let (k6, e_phone) = both _ _ k7 in
    let (k5, e_zip) = both _ _ k6 in
    let (k4, e_state) = both _ _ k5 in
    let (k3, e_city) = both _ _ k4 in
    let (k2, e_address) = both _ _ k3 in
    let (e_device, e_full_name) = both _ _ k2 in
    record {
      device = (too_short_iff 3 c.device_name (omega arith)).0 ((not-false _).0 e_device);
      full_name = is_empty_ne c.shipping_address.full_name ((not-false _).0 e_full_name);
      address = is_empty_ne c.shipping_address.address_line1 ((not-false _).0 e_address);
      city = is_empty_ne c.shipping_address.city ((not-false _).0 e_city);
      state = is_empty_ne c.shipping_address.state ((not-false _).0 e_state);
      zip = (zip_iff c.shipping_address.zip_code).0 ((not-false _).0 e_zip);
      phone = (phone_iff c.shipping_address.phone_number).0 ((not-false _).0 e_phone);
      ssid = (fits_iff c.wifi_config.ssid).0 ((not-false _).0 e_ssid);
      wifi_password =
          (too_short_iff 8 c.wifi_config.password (omega arith)).0
            ((not-false _).0 e_wifi_password);
      admin_password =
          (too_short_iff 8 c.admin_password (omega arith)).0 ((not-false _).0 e_admin_password);
      confirmed =
          (confirmed_iff c.admin_password c.admin_password_confirm).0 ((not-false _).0 e_confirmed);
      connected = (wan_errors_iff c.wan_type c.wan_config).0 e_connected;
    }

complete_valid : (c : OnboardingConfig) → IsComplete c → validate_form c ≡ true
complete_valid c h =
    validate_form_eq c
    ∙ (both_true
        (both_true
          (both_true
            (both_true
              (both_true
                (both_true
                  (both_true
                    (both_true
                      (both_true
                        (both_true
                          (both_true
                            ((not-false _).1
                              ((too_short_iff 3 c.device_name (omega arith)).1 h.device))
                            ((not-false _).1
                              (ne_is_empty c.shipping_address.full_name h.full_name)))
                          ((not-false _).1
                            (ne_is_empty c.shipping_address.address_line1 h.address)))
                        ((not-false _).1 (ne_is_empty c.shipping_address.city h.city)))
                      ((not-false _).1 (ne_is_empty c.shipping_address.state h.state)))
                    ((not-false _).1 ((zip_iff c.shipping_address.zip_code).1 h.zip)))
                  ((not-false _).1 ((phone_iff c.shipping_address.phone_number).1 h.phone)))
                ((not-false _).1 ((fits_iff c.wifi_config.ssid).1 h.ssid)))
              ((not-false _).1
                ((too_short_iff 8 c.wifi_config.password (omega arith)).1 h.wifi_password)))
            ((not-false _).1 ((too_short_iff 8 c.admin_password (omega arith)).1 h.admin_password)))
          ((not-false _).1
            ((confirmed_iff c.admin_password c.admin_password_confirm).1 h.confirmed)))
        ((wan_errors_iff c.wan_type c.wan_config).1 h.connected))

-- The form accepts a configuration exactly if it is complete: the name of at least 3 characters, the parts
-- of the address there, a ZIP code of five digits or of five and four, a telephone number with ten digits
-- or more, an SSID of 1 to 32 characters, both passwords of at least 8, the second one typed twice, and
-- what PPPoE or a static address needs.
pub validate_form_iff : (c : OnboardingConfig) → (validate_form c ≡ true) ↔ IsComplete c
validate_form_iff c = (validated c, complete_valid c)
