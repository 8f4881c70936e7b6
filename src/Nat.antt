-- ===== src/Nat.antt =====
-- packages/schema/src/endpoints/nat: the handlers for NAT rules. None of them keeps a rule: a creation
-- answers the rule that it was asked for, an update a constant rule with the given fields over it, a
-- delete success, and a list four constant rules. A difference of times is 0 where the source's would be
-- negative, which is so in the first ninety days of 1970 alone.
pub mod Answers
mod Tests
use ngfw_sh.Prelude.{
  leb, or_else, truthy, ℕ, ◌-◌, ◌*◌, ◌/◌, String, Bool, true, false, ◌&&◌, Option, none, some, List,
  [], ◌∷◌,
}
use ngfw_sh.Prelude.Text.{length}
use ngfw_sh.Platform.Http.{Reply, ok}

pub data NatRuleType : Type 0 where
  snat dnat masquerade port_forward : NatRuleType

pub data NatProtocol : Type 0 where
  tcp udp tcp_udp icmp all : NatProtocol

pub record NatRule : Type 0 where
  pub id : String
  pub name : String
  pub type : NatRuleType
  pub enabled : Bool
  pub protocol : NatProtocol
  pub source_zone : String
  pub source_address : String
  pub destination_zone : String
  pub destination_address : String
  pub external_port : Option String
  pub internal_ip : Option String
  pub internal_port : Option String
  pub description : Option String
  pub owner_id : String
  pub device_id : String
  pub created_at : ℕ
  pub updated_at : ℕ

-- `createBody`. A nullable field that is missing and one that is null are `none` alike, since the handlers
-- take them so.
pub record CreateBody : Type 0 where
  pub name : String
  pub type : NatRuleType
  pub enabled : Option Bool
  pub protocol : NatProtocol
  pub source_zone : String
  pub source_address : String
  pub destination_zone : String
  pub destination_address : String
  pub external_port : Option String
  pub internal_ip : Option String
  pub internal_port : Option String
  pub description : Option String
  pub device_id : String

-- `updateBody`.
pub record UpdateBody : Type 0 where
  pub name : Option String
  pub type : Option NatRuleType
  pub enabled : Option Bool
  pub protocol : Option NatProtocol
  pub source_zone : Option String
  pub source_address : Option String
  pub destination_zone : Option String
  pub destination_address : Option String
  pub external_port : Option String
  pub internal_ip : Option String
  pub internal_port : Option String
  pub description : Option String

-- `min` and `max` of a text.
unfoldable pub within : ℕ → ℕ → String → Bool
unfolding length
within low high s = leb low (length s) && leb (length s) high

abbrev pub within_in : ℕ → ℕ → Option String → Bool
within_in low high none = true
within_in low high (some s) = within low high s

-- `natRule`.
abbrev pub valid_rule : NatRule → Bool
valid_rule r =
    within 1 255 r.name
    && within 1 50 r.source_zone
    && within 1 255 r.source_address
    && within 1 50 r.destination_zone
    && within 1 255 r.destination_address
    && within_in 0 50 r.external_port
    && within_in 0 50 r.internal_ip
    && within_in 0 50 r.internal_port
    && within_in 0 500 r.description

abbrev pub create_body : CreateBody → Bool
create_body b =
    within 1 255 b.name
    && within 1 50 b.source_zone
    && within 1 255 b.source_address
    && within 1 50 b.destination_zone
    && within 1 255 b.destination_address
    && within_in 0 50 b.external_port
    && within_in 0 50 b.internal_ip
    && within_in 0 50 b.internal_port
    && within_in 0 500 b.description

abbrev pub update_body : UpdateBody → Bool
update_body b =
    within_in 1 255 b.name
    && within_in 1 50 b.source_zone
    && within_in 1 255 b.source_address
    && within_in 1 50 b.destination_zone
    && within_in 1 255 b.destination_address
    && within_in 0 50 b.external_port
    && within_in 0 50 b.internal_ip
    && within_in 0 50 b.internal_port
    && within_in 0 500 b.description

unfoldable pub nat_rule_create : String → String → ℕ → CreateBody → Reply NatRule
nat_rule_create id user now b = ok 201 record {
  id = id;
  name = b.name;
  type = b.type;
  enabled = or_else b.enabled true;
  protocol = b.protocol;
  source_zone = b.source_zone;
  source_address = b.source_address;
  destination_zone = b.destination_zone;
  destination_address = b.destination_address;
  external_port = b.external_port;
  internal_ip = b.internal_ip;
  internal_port = b.internal_port;
  description = b.description;
  owner_id = user;
  device_id = b.device_id;
  created_at = now / 1000;
  updated_at = now / 1000;
}

abbrev pub no_device : String
no_device = "550e8400-e29b-41d4-a716-446655440000"

-- `x ?? d` where the field is nullable.
abbrev pub or_given : Option String → Option String → Option String
or_given none d = d
or_given (some s) d = some s

abbrev pub updated_rule : String → String → ℕ → UpdateBody → NatRule
updated_rule id user now b = record {
  id = id;
  name = or_else b.name "Updated NAT Rule";
  type = or_else b.type port_forward;
  enabled = or_else b.enabled true;
  protocol = or_else b.protocol tcp;
  source_zone = or_else b.source_zone "WAN";
  source_address = or_else b.source_address "any";
  destination_zone = or_else b.destination_zone "LAN";
  destination_address = or_else b.destination_address "192.168.1.100";
  external_port = or_given b.external_port (some "8080");
  internal_ip = or_given b.internal_ip (some "192.168.1.100");
  internal_port = or_given b.internal_port (some "80");
  description = or_given b.description none;
  owner_id = user;
  device_id = no_device;
  created_at = now / 1000 - 86400;
  updated_at = now / 1000;
}

unfoldable pub nat_rule_update : String → String → ℕ → UpdateBody → Reply NatRule
nat_rule_update id user now b = ok 200 (updated_rule id user now b)

unfoldable pub nat_rule_delete : String → Reply (Unit {0})
nat_rule_delete id = ok 200 tt

abbrev pub ssh_access : String → String → ℕ → NatRule
ssh_access user device now = record {
  id = "550e8400-e29b-41d4-a716-446655440001";
  name = "SSH Access";
  type = port_forward;
  enabled = true;
  protocol = tcp;
  source_zone = "WAN";
  source_address = "any";
  destination_zone = "LAN";
  destination_address = "192.168.1.100";
  external_port = some "2222";
  internal_ip = some "192.168.1.100";
  internal_port = some "22";
  description = some "Forward external SSH to internal server";
  owner_id = user;
  device_id = device;
  created_at = now / 1000 - 86400 * 30;
  updated_at = now / 1000 - 86400 * 5;
}

abbrev pub web_server : String → String → ℕ → NatRule
web_server user device now = record {
  id = "550e8400-e29b-41d4-a716-446655440002";
  name = "Web Server";
  type = port_forward;
  enabled = true;
  protocol = tcp;
  source_zone = "WAN";
  source_address = "any";
  destination_zone = "LAN";
  destination_address = "192.168.1.50";
  external_port = some "80,443";
  internal_ip = some "192.168.1.50";
  internal_port = some "80,443";
  description = some "HTTP and HTTPS to web server";
  owner_id = user;
  device_id = device;
  created_at = now / 1000 - 86400 * 60;
  updated_at = now / 1000 - 86400 * 10;
}

abbrev pub wan_masquerade : String → String → ℕ → NatRule
wan_masquerade user device now = record {
  id = "550e8400-e29b-41d4-a716-446655440003";
  name = "WAN Masquerade";
  type = masquerade;
  enabled = true;
  protocol = all;
  source_zone = "LAN";
  source_address = "192.168.1.0/24";
  destination_zone = "WAN";
  destination_address = "any";
  external_port = none;
  internal_ip = none;
  internal_port = none;
  description = some "NAT masquerade for LAN to WAN traffic";
  owner_id = user;
  device_id = device;
  created_at = now / 1000 - 86400 * 90;
  updated_at = now / 1000 - 86400 * 90;
}

abbrev pub game_server : String → String → ℕ → NatRule
game_server user device now = record {
  id = "550e8400-e29b-41d4-a716-446655440004";
  name = "Game Server";
  type = port_forward;
  enabled = false;
  protocol = tcp_udp;
  source_zone = "WAN";
  source_address = "any";
  destination_zone = "LAN";
  destination_address = "192.168.1.200";
  external_port = some "25565";
  internal_ip = some "192.168.1.200";
  internal_port = some "25565";
  description = some "Minecraft server port forwarding";
  owner_id = user;
  device_id = device;
  created_at = now / 1000 - 86400 * 15;
  updated_at = now / 1000 - 86400 * 2;
}

unfoldable pub nat_rule_list : String → Option String → ℕ → Reply (List NatRule)
nat_rule_list user device_id now =
    let device = or_else (truthy device_id) no_device in
    ok 200 (
      ssh_access user device now
      ∷ web_server user device now
      ∷ wan_masquerade user device now
      ∷ game_server user device now
      ∷ [])
