-- ===== src/NatPage/Form.antt =====
-- The form of packages/portal-astro/src/components/security/NATRulesApp.vue and the rules of
-- packages/portal-astro/src/lib/api/types.ts. A port is a whole number of at least 0.
use ngfw_sh.Prelude.{ltb, eqb, ℕ, String, Bool, ◌||◌, Option, none, some, List, ◌++◌}
use ngfw_sh.Prelude.Errors.{error_if}
use ngfw_sh.NatPage.Blank.{is_blank}

pub data PortalNatType : Type 0 where
  port_forward source_nat destination_nat : PortalNatType

pub data PortalProtocol : Type 0 where
  tcp udp both_protocols : PortalProtocol

pub record PortalNatRule : Type 0 where
  pub id : String
  pub device_id : String
  pub name : String
  pub type : PortalNatType
  pub external_ip : String
  pub external_port : ℕ
  pub internal_ip : String
  pub internal_port : ℕ
  pub protocol : PortalProtocol
  pub enabled : Bool
  pub description : Option String

-- The form, which is what a creation sends; `device_id` is "" where no device is selected.
pub record NatForm : Type 0 where
  pub device_id : String
  pub name : String
  pub type : PortalNatType
  pub external_ip : String
  pub external_port : ℕ
  pub internal_ip : String
  pub internal_port : ℕ
  pub protocol : PortalProtocol
  pub enabled : Bool
  pub description : String

pub record NatUpdate : Type 0 where
  pub name : Option String
  pub type : Option PortalNatType
  pub external_ip : Option String
  pub external_port : Option ℕ
  pub internal_ip : Option String
  pub internal_port : Option ℕ
  pub protocol : Option PortalProtocol
  pub enabled : Option Bool
  pub description : Option String

-- The bodies of the calls.
pub data NatBody : Type 0 where
  creates : NatForm → NatBody
  renews : NatUpdate → NatBody

abbrev pub update_of : NatForm → NatUpdate
update_of f = record {
  name = some f.name;
  type = some f.type;
  external_ip = some f.external_ip;
  external_port = some f.external_port;
  internal_ip = some f.internal_ip;
  internal_port = some f.internal_port;
  protocol = some f.protocol;
  enabled = some f.enabled;
  description = some f.description;
}

abbrev pub only_enabled : Bool → NatUpdate
only_enabled b = record {
  name = none;
  type = none;
  external_ip = none;
  external_port = none;
  internal_ip = none;
  internal_port = none;
  protocol = none;
  enabled = some b;
  description = none;
}

abbrev no_port : ℕ → Bool
no_port n = eqb n 0 || ltb n 1 || ltb 65535 n

-- What is entered in `formErrors`.
unfoldable pub validate_form : NatForm → List (String × String)
unfolding is_blank
validate_form f =
    error_if (is_blank f.name) "name" "Name is required"
    ++ error_if (is_blank f.external_ip) "external_ip" "External IP is required"
    ++ error_if (is_blank f.internal_ip) "internal_ip" "Internal IP is required"
    ++ error_if (no_port f.external_port) "external_port" "Valid port (1-65535) is required"
    ++ error_if (no_port f.internal_port) "internal_port" "Valid port (1-65535) is required"
