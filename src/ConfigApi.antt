-- ===== src/ConfigApi.antt =====
-- config-api/handlers: the responses of the configuration service (json.go and the wire types of
-- devices.go and traps.go). A handler takes a decoded request and answers with one response.
pub mod Devices
pub mod Settings
pub mod Traps
pub mod Reading
pub mod Preservation
pub mod Interval
pub mod Interfaces
pub mod Creation
pub mod Missing
pub mod Others
pub mod Secrecy
pub mod Server
use beacon_v.Prelude.{ℕ, String, Bool, not, List, ℤ, ◌==◌}
use beacon_v.Exec.{Result, ok, err, Exec}
use beacon_v.World.{Error, World}
use beacon_v.Store.{Device}
use beacon_v.Store.Traps.{Trap}

pub record DeviceResponse : Type 0 where
  pub id : ℕ
  pub ip_address : String
  pub hostname : String
  pub snmp_version : String
  pub has_community : Bool
  pub v3_user : String
  pub has_v3_auth_key : Bool
  pub has_v3_priv_key : Bool
  pub v3_auth_protocol : String
  pub v3_priv_protocol : String
  pub group_name : String
  pub status : String
  pub is_public_ip : Bool
  pub discovered_via : String
  pub created_at : String
  pub updated_at : String

pub record ReadableTrap : Type 0 where
  pub id : ℕ
  pub source_ip : String
  pub oid : String
  pub name : String
  pub device : String
  pub interface : String
  pub payload : String
  pub received_at : String

-- The JSON bodies that are written.
pub data Body : Type 0 where
  error : Error → Body
  device : DeviceResponse → Body
  devices : List DeviceResponse → Body
  polling_interval : ℤ → Body
  credential_duplication : Bool → Body
  traps : List Trap → Body
  readable_traps : List ReadableTrap → Body
  no_content : Body

pub record Response : Type 0 where
  pub status : ℕ
  pub body : Body

abbrev pub write_json : ℕ → Body → Response
write_json status body = record { status = status; body = body }

abbrev pub write_error : ℕ → Error → Response
write_error status e = write_json status (error e)

-- An early return writes its response and ends the handler.
abbrev pub Handler : Type 0
Handler = World → Response × World

abbrev pub written : Result Response Response → Response
written (ok r) = r
written (err r) = r

unfoldable pub answer : Exec World Response Response → Handler
answer m w = let (r, v) = m w in (written r, v)

abbrev is_set : String → Bool
is_set s = not (s == "")

unfoldable pub to_device_response : Device → DeviceResponse
to_device_response d = record {
  id = d.id;
  ip_address = d.ip_address;
  hostname = d.hostname;
  snmp_version = d.snmp_version;
  has_community = is_set d.community;
  v3_user = d.v3_user;
  has_v3_auth_key = is_set d.v3_auth_key;
  has_v3_priv_key = is_set d.v3_priv_key;
  v3_auth_protocol = d.v3_auth_protocol;
  v3_priv_protocol = d.v3_priv_protocol;
  group_name = d.group_name;
  status = d.status;
  is_public_ip = d.is_public_ip;
  discovered_via = d.discovered_via;
  created_at = d.created_at;
  updated_at = d.updated_at;
}
