-- ===== src/TrapReceiver.antt =====
-- trap-receiver/handler.go: a received SNMP packet becomes a row of the traps database.
-- JSON encoding and the validity of UTF-8 are the Go library's, and are parameters.
pub mod Naming
pub mod Recorded
pub mod Listed
pub mod Server
use beacon_v.Prelude.{
  ℕ, zero, suc, String, Bool, true, false, Option, none, some, List, [], ◌∷◌, map, ◌==◌,
  if◌then◌else◌, itoa, trim_dot, ◌<>◌, ℤ, pos, negsuc,
}
use beacon_v.Exec.{Result, ok, err, pure, lift, ◌>>=◌, ◌>>◌}
use beacon_v.World.{
  Error, SnmpVersion, version1, version2c, version3, Pdu, PduValue, text, bytes, other, Env, Go,
}
use beacon_v.Snmp.TrapNames.{lookup}
use beacon_v.Store.Traps
use beacon_v.Store.Traps.{Trap}

abbrev pub snmp_trap_oid : String
snmp_trap_oid = ".1.3.6.1.6.3.1.1.4.1.0"

-- `gosnmp.SnmpPacket`, the fields that are read. The trap numbers are Go ints.
pub record Packet : Type 0 where
  pub version : SnmpVersion
  pub community : String
  pub agent_address : String
  pub enterprise : String
  pub generic_trap : ℤ
  pub specific_trap : ℤ
  pub variables : List Pdu

abbrev pub generic_oid : ℕ → Option String
generic_oid zero = some ".1.3.6.1.6.3.1.1.5.1"
generic_oid (suc zero) = some ".1.3.6.1.6.3.1.1.5.2"
generic_oid (suc (suc zero)) = some ".1.3.6.1.6.3.1.1.5.3"
generic_oid (suc (suc (suc zero))) = some ".1.3.6.1.6.3.1.1.5.4"
generic_oid (suc (suc (suc (suc zero)))) = some ".1.3.6.1.6.3.1.1.5.5"
generic_oid (suc (suc (suc (suc (suc zero))))) = some ".1.3.6.1.6.3.1.1.5.6"
generic_oid _ = none

-- The map `genericTrapOID`.
abbrev pub generic_trap_oid : ℤ → Option String
generic_trap_oid (pos n) = generic_oid n
generic_trap_oid (negsuc n) = none

abbrev int_text : ℤ → String
int_text (pos n) = itoa n
int_text (negsuc n) = "-" <> itoa (suc n)

abbrev pub or_specific : Option String → String → ℤ → String
or_specific (some oid) enterprise specific = oid
or_specific none enterprise specific = trim_dot enterprise <> "." <> int_text specific

abbrev pub text_or : PduValue → String → String
text_or (text s) rest = s
text_or _ rest = rest

-- The first text value of a variable with the name of snmpTrapOID.0.
unfoldable pub trap_oid_variable : List Pdu → String
trap_oid_variable [] = ""
trap_oid_variable (v ∷ vs) =
    let rest = trap_oid_variable vs in
    if v.name == snmp_trap_oid then text_or v.value rest else rest

abbrev pub oid_by_version : SnmpVersion → Packet → String
oid_by_version version1 p =
    or_specific (generic_trap_oid p.generic_trap) p.enterprise p.specific_trap
oid_by_version _ p = trap_oid_variable p.variables

unfoldable pub extract_trap_oid : Packet → String
unfolding trap_oid_variable
extract_trap_oid p = oid_by_version p.version p

pub record Varbind : Type 0 where
  pub oid : String
  pub type_name : String
  pub value : PduValue

module _ (env : Env) (utf8_text : List ℕ → Option String) (hex_text : List ℕ → String)
    (marshal : List Varbind → Result Error String) where
  abbrev or_hex : List ℕ → Option String → PduValue
  or_hex b (some s) = text s
  or_hex b none = text (hex_text b)

  -- Bytes that are valid UTF-8 become that text, others their hexadecimal digits.
  unfoldable pub normalize_value : PduValue → PduValue
  normalize_value (bytes b) = or_hex b (utf8_text b)
  normalize_value v = v

  abbrev pub varbind_of : Pdu → Varbind
  varbind_of v = record { oid = v.name; type_name = v.type_name; value = normalize_value v.value }

  unfoldable pub encode_varbinds : List Pdu → Result Error String
  unfolding normalize_value
  encode_varbinds vars = marshal (map varbind_of vars)

  abbrev pub agent_of : SnmpVersion → String → String
  agent_of version1 address = address
  agent_of _ address = ""

  abbrev pub received : Packet → String → String → Trap
  received p source payload = record {
    id = 0;
    source_ip = source;
    oid = extract_trap_oid p;
    payload = payload;
    community = p.community;
    agent_address = agent_of p.version p.agent_address;
    received_at = "";
  }

  -- The function that `newTrapHandler` returns; `source` is the packet's own address.
  unfoldable pub handle_trap : Packet → String → Go (Unit {0})
  unfolding extract_trap_oid encode_varbinds
  handle_trap p source = do
    payload ← lift (encode_varbinds p.variables)
    id ← Traps.insert env (received p source payload)
    pure tt
