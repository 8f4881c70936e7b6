-- ===== src/Nat/Tests.antt =====
-- packages/schema/src/endpoints/nat on a body of a few fields.
use ngfw_sh.Prelude.{none, some}
use ngfw_sh.Nat.{CreateBody, UpdateBody, port_forward, tcp}

abbrev body : CreateBody
body = record {
  name = "ssh";
  type = port_forward;
  enabled = none;
  protocol = tcp;
  source_zone = "WAN";
  source_address = "any";
  destination_zone = "LAN";
  destination_address = "10.0.0.2";
  external_port = some "22";
  internal_ip = none;
  internal_port = none;
  description = none;
  device_id = "d1";
}

abbrev renames : UpdateBody
renames = record {
  name = some "renamed";
  type = none;
  enabled = none;
  protocol = none;
  source_zone = none;
  source_address = none;
  destination_zone = none;
  destination_address = none;
  external_port = some "2222";
  internal_ip = none;
  internal_port = none;
  description = none;
}
