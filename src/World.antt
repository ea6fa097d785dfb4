-- ===== src/World.antt =====
-- What the services share: errors, the rows of the two SQLite databases, the messages of gosnmp,
-- and the outside world as an environment that answers the n-th call made of it.
pub mod Ticks
use beacon_v.Prelude.{ℕ, suc, String, Bool, true, false, Option, none, some, List}
use beacon_v.Exec.{Result, ok, err, Exec}
use beacon_v.Netutil.{Ip}

-- Go errors: the sentinels that the code compares with, and texts that wrap another error.
pub data Error : Type 0 where
  not_found probe_failed empty_key : Error
  message : String → Error
  wrap : String → Error → Error

-- `errors.Is(err, store.ErrNotFound)`.
abbrev pub is_not_found : Error → Bool
is_not_found not_found = true
is_not_found (wrap _ e) = is_not_found e
is_not_found _ = false

-- A decoded JSON value; a number carries the text that a column of type TEXT makes of it.
pub data Json : Type 0 where
  null : Json
  str : String → Json
  number : String → Json
  boolean : Bool → Json
  compound : Json

-- internal/store/schema.go, table `devices`. `none` is NULL; `ip_address` is NOT NULL.
pub record Row : Type 0 where
  pub id : ℕ
  pub ip_address : String
  pub hostname : Option String
  pub snmp_version : Option String
  pub community : Option String
  pub v3_user : Option String
  pub v3_auth_key : Option String
  pub v3_priv_key : Option String
  pub v3_auth_protocol : Option String
  pub v3_priv_protocol : Option String
  pub group_name : Option String
  pub status : Option String
  pub is_public_ip : Option Bool
  pub discovered_via : Option String
  pub created_at : String
  pub updated_at : String

-- internal/store/schema.go, table `traps`.
pub record TrapRow : Type 0 where
  pub id : ℕ
  pub source_ip : String
  pub oid : String
  pub payload : String
  pub community : Option String
  pub agent_address : Option String
  pub received_at : String

-- The tables, the content of telegraf.conf and the number of reloads, the next value of each AUTOINCREMENT key, and the number of calls made so far of
-- SQLite, of SNMP agents, of the random source and of the file system.
pub record World : Type 0 where
  pub devices : List Row
  pub next_id : ℕ
  pub settings : List (String × String)
  pub traps : List TrapRow
  pub next_trap : ℕ
  pub conf : Option String
  pub reloads : ℕ
  pub ticks : ℕ

-- `gosnmp.SnmpVersion`, the protocols and the message flags.
pub data SnmpVersion : Type 0 where
  version1 version2c version3 : SnmpVersion

pub data AuthProtocol : Type 0 where
  no_auth md5 sha : AuthProtocol

pub data PrivProtocol : Type 0 where
  no_priv des aes : PrivProtocol

pub data MsgFlags : Type 0 where
  no_auth_no_priv auth_no_priv auth_priv : MsgFlags

-- `gosnmp.UsmSecurityParameters`.
pub record Usm : Type 0 where
  pub user_name : String
  pub authentication_protocol : AuthProtocol
  pub authentication_passphrase : String
  pub privacy_protocol : PrivProtocol
  pub privacy_passphrase : String

-- `gosnmp.GoSNMP`, the fields that the program sets. Times are in nanoseconds; `security` is the
-- user security model with its parameters, if it is set.
pub record Client : Type 0 where
  pub target : String
  pub port : ℕ
  pub timeout : ℕ
  pub retries : ℕ
  pub transport : String
  pub version : SnmpVersion
  pub community : String
  pub msg_flags : MsgFlags
  pub security : Option Usm

-- `gosnmp.SnmpPDU`: a name, a type and a value; `other` is printed by its text.
pub data PduValue : Type 0 where
  text : String → PduValue
  bytes : List ℕ → PduValue
  other : String → PduValue

pub record Pdu : Type 0 where
  pub name : String
  pub type_name : String
  pub value : PduValue

-- The code that is not under this repository, or is an effect: each answer may depend on how many
-- calls were made before it.
pub record Env : Type 0 where
  -- The driver's own failure of a statement (a locked file, a lost disk), if there is one.
  pub fault : ℕ → Option Error
  -- CURRENT_TIMESTAMP.
  pub now : ℕ → String
  -- What a BOOLEAN column makes of a bound value; `none` is NULL.
  pub bool_value : Json → Option Bool
  -- gosnmp: Connect, Get, and the variables that Walk hands to its callback.
  pub connect : ℕ → Client → Option Error
  pub get : ℕ → Client → String → Option Error
  pub walk : ℕ → Client → String → List Pdu × Option Error
  -- The bytes that the random source gives for a nonce of this size.
  pub nonce : ℕ → ℕ → Result Error (List ℕ)
  -- Failures of reading and of writing telegraf.conf (a missing file is no failure), and of
  -- `docker exec`.
  pub read_fault : ℕ → Option Error
  pub write_fault : ℕ → Option Error
  pub reload_fault : ℕ → Option Error
  -- The textual forms of IPv6 addresses.
  pub v6_text : String → Option Ip

abbrev pub Go : Type 0 → Type 0
Go A = Exec World Error A

abbrev pub tick : World → World
tick w = record w { ticks = suc w.ticks }

-- A call that may fail, with the outcome that the environment gives it.
abbrev pub outcome : {A : Type 0} → Option Error → A → Result Error A
outcome none a = ok a
outcome (some e) a = err e

unfoldable pub call : (ℕ → Option Error) → Go (Unit {0})
call answer w = (outcome (answer w.ticks) tt, tick w)
