-- ===== src/Examples/Tables.antt =====
-- A fresh database, one with a device, and the services on them.
use beacon_v.Prelude.{true, false, none, some, [], ◌∷◌, pos, refl, arith, itoa}
use beacon_v.Exec.{ok}
use beacon_v.World.{Row, World, version1, bytes}
use beacon_v.Snmp.TrapNames.{lookup}
use beacon_v.Store.{Device, find_ip, checked}
use beacon_v.Store.Validity.{IsValid}
use beacon_v.ConfigApi.Devices.{DeviceHandler, DeviceRequest}
use beacon_v.ConfigApi.Settings.{allowed_polling_interval}
use beacon_v.TrapReceiver.{Packet}
use beacon_v.Watcher.Discovery.{blank_device}
use beacon_v.System.{Deployment}
use beacon_v.System.Sound.{IsSound}
use beacon_v.Examples.Cipher.{sample_key, sample_env}

abbrev pub fresh : World
fresh = record {
  devices = [];
  next_id = 1;
  settings = ("polling_interval_seconds", "60") ∷ ("credential_duplication_enabled", "0") ∷ [];
  traps = [];
  next_trap = 1;
  conf = none;
  reloads = 0;
  ticks = 0;
}

abbrev pub router_row : Row
router_row = record {
  id = 1;
  ip_address = "10.0.0.1";
  hostname = some "router";
  snmp_version = some "v2c";
  community = some "";
  v3_user = some "";
  v3_auth_key = some "";
  v3_priv_key = some "";
  v3_auth_protocol = some "";
  v3_priv_protocol = some "";
  group_name = some "";
  status = some "active";
  is_public_ip = some false;
  discovered_via = some "manual";
  created_at = "2025-12-31 00:00:00";
  updated_at = "2025-12-31 00:00:00";
}

abbrev pub stocked : World
stocked = record fresh { devices = router_row ∷ []; next_id = 2 }

pub fresh-IsValid : IsValid fresh
fresh-IsValid = record { ordered = omega arith; distinct = tt; constrained = tt }

pub stocked-IsValid : IsValid stocked
unfolding find_ip checked
stocked-IsValid = record {
  ordered = (omega arith, omega arith);
  distinct = (refl, tt);
  constrained = (refl, tt);
}

pub stocked-IsSound : IsSound stocked
unfolding lookup allowed_polling_interval itoa
stocked-IsSound = record {
  tables = stocked-IsValid;
  interval = (pos 60, refl, refl);
  duplication = (false, refl);
  traps_ordered = omega arith;
}

abbrev pub new_device : Device
new_device = record blank_device { ip_address = "10.0.0.2"; hostname = "switch" }

abbrev pub handler : DeviceHandler
handler = record { key = sample_key; probe_timeout = 0 }

abbrev pub new_request : DeviceRequest
new_request = record {
  ip_address = "10.0.0.2";
  hostname = "switch";
  snmp_version = "v2c";
  community = "public";
  v3_user = "";
  v3_auth_key = "";
  v3_priv_key = "";
  v3_auth_protocol = "";
  v3_priv_protocol = "";
  group_name = "";
  status = "";
}

abbrev pub link_down : Packet
link_down = record {
  version = version1;
  community = "public";
  agent_address = "10.0.0.1";
  enterprise = ".1.3.6.1.4.1.9";
  generic_trap = pos 2;
  specific_trap = pos 0;
  variables =
      record {
        name = ".1.3.6.1.2.1.2.2.1.2.3";
        type_name = "OctetString";
        value = bytes (101 ∷ 48 ∷ []);
      }
      ∷ [];
}

abbrev pub deployment : Deployment
deployment = record {
  env = sample_env;
  device_handler = handler;
  traps_handler = record { devices = true; key = some sample_key };
  template = λ _. ok "conf";
  influx = record { url = ""; token = ""; database = "" };
  decode_payload = λ _. none;
  utf8_text = λ b. some "e0";
  hex_text = λ b. "6530";
  marshal = λ vs. ok "[]";
}
