-- ===== src/Store.antt =====
-- internal/store: the tables `devices` (devices.go), `settings` and `traps`, with the constraints of
-- schema.go. A statement is one atomic step on the tables; the driver may fail it.
pub mod Devices
pub mod Validity
pub mod Preservation
pub mod Success
pub mod MapView
pub mod Nulls
pub mod Settings
pub mod Opening
pub mod Traps
use mathlib.Core.List.{foldl}
use beacon_v.Prelude.{
  ℕ, suc, String, Bool, true, false, not, ◌&&◌, ◌||◌, Option, none, some, List, [], ◌∷◌, ◌++◌, ◌==◌,
  eqb, keep, if◌then◌else◌, ◌<>◌, itoa, ℤ, pos, negsuc,
}
use beacon_v.Exec.{Result, ok, err, Exec, pure, fail, lift, ◌>>=◌, ◌>>◌, or_fail, map_err}
use beacon_v.World.{
  Error, message, wrap, not_found, Json, null, str, number, boolean, compound, Row, World, Env, Go,
  tick,
}

-- The struct that callers see; a credential field holds a ciphertext.
pub record Device : Type 0 where
  pub id : ℕ
  pub ip_address : String
  pub hostname : String
  pub snmp_version : String
  pub community : String
  pub v3_user : String
  pub v3_auth_key : String
  pub v3_priv_key : String
  pub v3_auth_protocol : String
  pub v3_priv_protocol : String
  pub group_name : String
  pub status : String
  pub is_public_ip : Bool
  pub discovered_via : String
  pub created_at : String
  pub updated_at : String

-- A statement that the driver fails does nothing else.
unfoldable pub statement : {A : Type 0} → Env → Go A → Go A
statement env body w = elim (env.fault w.ticks) [ none ↦ body (tick w) | some e ↦ (err e, tick w) ]

-- A statement that writes CURRENT_TIMESTAMP.
unfoldable pub timed : {A : Type 0} → Env → (String → Go A) → Go A
unfolding statement
timed env body w = statement env (body (env.now w.ticks)) w

abbrev pub is_null {ℓ} : {A : Type ℓ} → Option A → Bool
is_null none = true
is_null (some _) = false

abbrev pub value : Option String → String
value none = ""
value (some s) = s

abbrev pub truth : Option Bool → Bool
truth none = false
truth (some b) = b

-- The columns that `scanDevice` reads into fields that cannot hold NULL.
unfoldable pub has_null : Row → Bool
has_null r =
    is_null r.hostname
    || (is_null r.snmp_version
        || (is_null r.community
            || (is_null r.v3_user
                || (is_null r.v3_auth_key
                    || (is_null r.v3_priv_key
                        || (is_null r.v3_auth_protocol
                            || (is_null r.v3_priv_protocol
                                || (is_null r.group_name
                                    || (is_null r.status
                                        || (is_null r.is_public_ip
                                            || is_null r.discovered_via))))))))))

abbrev pub device_of : Row → Device
device_of r = record {
  id = r.id;
  ip_address = r.ip_address;
  hostname = value r.hostname;
  snmp_version = value r.snmp_version;
  community = value r.community;
  v3_user = value r.v3_user;
  v3_auth_key = value r.v3_auth_key;
  v3_priv_key = value r.v3_priv_key;
  v3_auth_protocol = value r.v3_auth_protocol;
  v3_priv_protocol = value r.v3_priv_protocol;
  group_name = value r.group_name;
  status = value r.status;
  is_public_ip = truth r.is_public_ip;
  discovered_via = value r.discovered_via;
  created_at = r.created_at;
  updated_at = r.updated_at;
}

-- `Scan` cannot convert NULL to a string or a bool.
unfoldable pub scan_device : Row → Result Error Device
unfolding has_null
scan_device r =
    if has_null r
    then err (message "sql: Scan error: converting NULL is unsupported")
    else ok (device_of r)

abbrev pub scan_next : Result Error Device → Result Error (List Device) → Result Error (List Device)
scan_next (err e) _ = err (wrap "store: scanning device" e)
scan_next (ok d) (err e) = err e
scan_next (ok d) (ok ds) = ok (d ∷ ds)

unfoldable pub scan_all : List Row → Result Error (List Device)
scan_all [] = ok []
scan_all (r ∷ rs) = scan_next (scan_device r) (scan_all rs)

abbrev pub has_id : ℤ → Row → Bool
has_id (pos n) r = eqb n r.id
has_id (negsuc n) r = false

unfoldable pub find_id : ℤ → List Row → Option Row
find_id id [] = none
find_id id (r ∷ rs) = if has_id id r then some r else find_id id rs

unfoldable pub find_ip : String → List Row → Option Row
find_ip ip [] = none
find_ip ip (r ∷ rs) = if r.ip_address == ip then some r else find_ip ip rs

abbrev pub scan_found : String → Option Row → Result Error Device
scan_found context none = err not_found
scan_found context (some r) = map_err (wrap context) (scan_device r)

abbrev pub is_status : String → Row → Bool
is_status status r = elim r.status [ none ↦ false | some s ↦ s == status ]

-- CHECK constraints; NULL passes, as in SQL.
abbrev pub version_allowed : Option String → Bool
version_allowed none = true
version_allowed (some v) = v == "v1" || (v == "v2c" || (v == "v3" || v == ""))

abbrev pub status_allowed : Option String → Bool
status_allowed none = true
status_allowed (some s) = s == "pending" || (s == "active" || s == "failed")

unfoldable pub checked : Row → Bool
checked r = version_allowed r.snmp_version && status_allowed r.status

unfoldable pub allowed_device_column : String → Bool
allowed_device_column col =
    col == "hostname"
    || (col == "snmp_version"
        || (col == "community"
            || (col == "v3_user"
                || (col == "v3_auth_key"
                    || (col == "v3_priv_key"
                        || (col == "v3_auth_protocol"
                            || (col == "v3_priv_protocol"
                                || (col == "group_name"
                                    || (col == "status"
                                        || (col == "is_public_ip"
                                            || col == "discovered_via"))))))))))

-- What a TEXT column stores of a bound value.
abbrev pub text_value : Json → Option String
text_value null = none
text_value (str s) = some s
text_value (number s) = some s
text_value (boolean true) = some "1"
text_value (boolean false) = some "0"
text_value compound = none

module _ (env : Env) where
  unfoldable pub set_column : Row → String × Json → Row
  set_column r (col, v) =
      if col == "hostname"
      then record r { hostname = text_value v }
      else if col == "snmp_version"
      then record r { snmp_version = text_value v }
      else if col == "community"
      then record r { community = text_value v }
      else if col == "v3_user"
      then record r { v3_user = text_value v }
      else if col == "v3_auth_key"
      then record r { v3_auth_key = text_value v }
      else if col == "v3_priv_key"
      then record r { v3_priv_key = text_value v }
      else if col == "v3_auth_protocol"
      then record r { v3_auth_protocol = text_value v }
      else if col == "v3_priv_protocol"
      then record r { v3_priv_protocol = text_value v }
      else if col == "group_name"
      then record r { group_name = text_value v }
      else if col == "status"
      then record r { status = text_value v }
      else if col == "is_public_ip"
      then record r { is_public_ip = env.bool_value v }
      else if col == "discovered_via"
      then record r { discovered_via = text_value v }
      else r
