-- ===== src/Onboarding/Routers.antt =====
-- packages/schema/src/endpoints/onboarding: the routers that are offered, and an order, which is not kept.
use Prim.Native.String.{◌++◌}
use ngfw_sh.Prelude.{Bool, String, true, false, Option, none, some, List, [], ◌∷◌}
use ngfw_sh.Platform.Http.{Reply, ok}
use ngfw_sh.Onboarding.{RouterOption}

abbrev rt_ax92u : RouterOption
rt_ax92u = record {
  id = "asus-rt-ax92u";
  name = "RT-AX92U";
  manufacturer = "ASUS";
  firmware = "Merlin NG";
  price = 299;
  specs = record {
    cpu = "Quad-core 1.8GHz";
    ram = "512MB";
    storage = "256MB NAND";
    wan_ports = "1x Gigabit";
    lan_ports = "4x Gigabit";
    wifi = "WiFi 6 (AX6100) Tri-band";
    max_devices = 75;
  };
  features =
      "WiFi 6 (802.11ax) tri-band" ∷ "AiMesh support for mesh networking"
      ∷ "AiProtection Pro security" ∷ "Advanced QoS and traffic management"
      ∷ "USB 3.0 port for network storage" ∷ "ASUSWRT-Merlin custom firmware" ∷ [];
  image = "https://placehold.co/400x300/1e293b/60a5fa?text=ASUS+RT-AX92U";
  recommended = some false;
  in_stock = true;
}

abbrev pub flint_2 : RouterOption
flint_2 = record {
  id = "gl-inet-flint-2";
  name = "Flint 2 (GL-MT6000)";
  manufacturer = "GL.iNet";
  firmware = "OpenWrt";
  price = 199;
  specs = record {
    cpu = "Quad-core 2.0GHz ARM Cortex-A53";
    ram = "1GB DDR4";
    storage = "8GB eMMC + 128MB NAND";
    wan_ports = "1x 2.5Gb";
    lan_ports = "4x Gigabit";
    wifi = "WiFi 6 (AX6000) Dual-band";
    max_devices = 100;
  };
  features =
      "WiFi 6 dual-band with 160MHz support" ∷ "OpenWrt native for maximum flexibility"
      ∷ "2.5Gb WAN port for multi-gig connections" ∷ "Pre-configured VPN client support"
      ∷ "Open-source firmware with active community" ∷ "Best price-to-performance ratio" ∷ [];
  image = "https://placehold.co/400x300/1e293b/10b981?text=GL.iNet+Flint+2";
  recommended = some true;
  in_stock = true;
}

abbrev wrt3200acm : RouterOption
wrt3200acm = record {
  id = "linksys-wrt3200acm";
  name = "WRT3200ACM";
  manufacturer = "Linksys";
  firmware = "OpenWrt";
  price = 179;
  specs = record {
    cpu = "Dual-core 1.8GHz ARM";
    ram = "512MB DDR3";
    storage = "256MB NAND";
    wan_ports = "1x Gigabit";
    lan_ports = "4x Gigabit";
    wifi = "AC3200 Tri-Stream";
    max_devices = 60;
  };
  features =
      "OpenWrt champion with excellent support" ∷ "Dual-core 1.8GHz for strong performance"
      ∷ "eSATA + USB 3.0 + USB 2.0 ports" ∷ "Proven reliability and stability"
      ∷ "Large community and documentation" ∷ "Budget-friendly OpenWrt option" ∷ [];
  image = "https://placehold.co/400x300/1e293b/8b5cf6?text=Linksys+WRT3200ACM";
  recommended = some false;
  in_stock = true;
}

abbrev flint_3 : RouterOption
flint_3 = record {
  id = "gl-inet-flint-3";
  name = "Flint 3";
  manufacturer = "GL.iNet";
  firmware = "OpenWrt";
  price = 299;
  specs = record {
    cpu = "Quad-core 2.2GHz";
    ram = "2GB DDR4";
    storage = "8GB eMMC";
    wan_ports = "1x 2.5Gb";
    lan_ports = "4x 2.5Gb";
    wifi = "WiFi 7 (BE11000)";
    max_devices = 150;
  };
  features =
      "WiFi 7 (802.11be) cutting-edge" ∷ "5x 2.5Gb ports for multi-gig network"
      ∷ "2GB RAM for advanced workloads" ∷ "Built-in WireGuard and Tailscale"
      ∷ "Future-proof connectivity" ∷ "Premium OpenWrt experience" ∷ [];
  image = "https://placehold.co/400x300/1e293b/f59e0b?text=GL.iNet+Flint+3";
  recommended = some false;
  in_stock = true;
}

unfoldable pub router_list : Reply (List RouterOption)
router_list = ok 200 (rt_ax92u ∷ flint_2 ∷ wrt3200acm ∷ flint_3 ∷ [])

pub record Order : Type 0 where
  pub order_id : String
  pub device_id : String
  pub estimated_delivery : String
  pub tracking_url : Option String
  pub setup_instructions : String
  pub status : String
  pub created_at : String

-- `first` and `second` are what `Math.random().toString(36)` is cut to, in capitals; `in_nine_days` is the
-- text of the date nine days on.
unfoldable pub order_create : String → String → String → String → String → Reply Order
order_create now_text first second in_nine_days now_iso = ok 201 record {
  order_id = "ORD-" ++ now_text ++ "-" ++ first;
  device_id = "DEV-" ++ second;
  estimated_delivery = in_nine_days;
  tracking_url = none;
  setup_instructions = "https://docs.ngfw.sh/setup/quick-start";
  status = "pending";
  created_at = now_iso;
}

pub record Status : Type 0 where
  pub completed : Bool
  pub current_step : String
  pub last_updated : String

unfoldable pub status_read : String → Reply Status
status_read now_iso =
    ok 200 record { completed = false; current_step = "router_selection"; last_updated = now_iso }
