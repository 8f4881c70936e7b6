-- ===== src/Onboarding/Form.antt =====
-- packages/portal-astro/src/components/onboarding/ConfigForm.vue: the form for a router's configuration.
use ngfw_sh.Prelude.{
  ltb, ◌==◌, if◌then◌else◌, String, Bool, true, not, ◌||◌, Option, none, some, List, [], ◌++◌,
}
use ngfw_sh.Prelude.Text.{length}
use ngfw_sh.Prelude.Errors.{error_if, is_nil}
use ngfw_sh.Onboarding.{WanType, OnboardingWanConfig, OnboardingConfig, dhcp, static, pppoe, lte}
use ngfw_sh.Onboarding.Texts.{is_zip_code, is_phone_number}

abbrev pub is_empty : String → Bool
is_empty s = s == ""

-- `!s` for a text that may be missing.
abbrev pub is_falsy : Option String → Bool
is_falsy none = true
is_falsy (some s) = is_empty s

-- `!config.wanConfig?.field`.
abbrev pub lacks_field : (OnboardingWanConfig → Option String) → Option OnboardingWanConfig → Bool
lacks_field field none = true
lacks_field field (some w) = is_falsy (field w)

abbrev pub differ : String → Option String → Bool
differ s none = true
differ s (some t) = not (s == t)

abbrev pub wan_errors : WanType → Option OnboardingWanConfig → List (String × String)
wan_errors pppoe w =
    error_if (lacks_field (λ w. w.username) w) "pppoeUsername" "PPPoE username is required"
    ++ error_if (lacks_field (λ w. w.password) w) "pppoePassword" "PPPoE password is required"
wan_errors static w =
    error_if (lacks_field (λ w. w.ip_address) w) "staticIp" "Static IP address is required"
    ++ error_if (lacks_field (λ w. w.gateway) w) "gateway" "Gateway is required"
wan_errors dhcp w = []
wan_errors lte w = []

-- The errors of the fields, in the order in which they are entered.
unfoldable pub form_errors : OnboardingConfig → List (String × String)
unfolding length is_zip_code is_phone_number
form_errors c =
    let a = c.shipping_address in
    let w = c.wifi_config in
    error_if (is_empty c.device_name || ltb (length c.device_name) 3) "deviceName"
      "Device name must be at least 3 characters"
    ++ error_if (is_empty a.full_name) "fullName" "Full name is required"
    ++ error_if (is_empty a.address_line1) "addressLine1" "Address is required"
    ++ error_if (is_empty a.city) "city" "City is required"
    ++ error_if (is_empty a.state) "state" "State is required"
    ++ error_if (is_empty a.zip_code || not (is_zip_code a.zip_code)) "zipCode"
        "Valid ZIP code is required"
    ++ error_if (is_empty a.phone_number || not (is_phone_number a.phone_number)) "phoneNumber"
        "Valid phone number is required"
    ++ error_if (is_empty w.ssid || ltb 32 (length w.ssid)) "ssid"
        "WiFi name must be 1-32 characters"
    ++ error_if (is_empty w.password || ltb (length w.password) 8) "wifiPassword"
        "WiFi password must be at least 8 characters"
    ++ error_if (is_empty c.admin_password || ltb (length c.admin_password) 8) "adminPassword"
        "Admin password must be at least 8 characters"
    ++ error_if (differ c.admin_password c.admin_password_confirm) "adminPasswordConfirm"
        "Passwords do not match"
    ++ wan_errors c.wan_type c.wan_config

unfoldable pub validate_form : OnboardingConfig → Bool
unfolding form_errors
validate_form c = is_nil (form_errors c)

-- What the form emits, if anything.
unfoldable pub handle_submit : OnboardingConfig → Option OnboardingConfig
unfolding validate_form
handle_submit c =
    if validate_form c then some (record c { admin_password_confirm = none }) else none
