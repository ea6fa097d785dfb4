-- ===== src/Examples/Runs.antt =====
-- Further runs of the theorems at the example tables.
use beacon_v.World.{Env, SnmpVersion, version1, message}
use beacon_v.Prelude.{
  none, Option, false, ℕ, ◌≤◌, String, Bool, ◌&&◌, ◌==◌, true, some, List, [], ◌∷◌, ◌++◌, pos, ◌≡◌,
  refl, length, keep,
}
use beacon_v.Exec.{ok, or_fail}
use beacon_v.World.{Pdu, text}
use beacon_v.Snmp.{contains_hop, next_hops}
use beacon_v.Snmp.Hops.{distinct, is_usable, reported, next_hops-reported}
use beacon_v.Crypto.{decrypt}
use beacon_v.Store.Devices.{inserted, with_status, updated, create, update, delete}
use beacon_v.ConfigApi.Devices.{create_valid}
use beacon_v.ChatApi.RateLimit.{new_rate_limiter}
use beacon_v.ChatApi.RateLimit.Window.{Call, served, in_window, allow-limit}
use beacon_v.Examples.Cipher.{sample_key, sample_env}
use beacon_v.Examples.Tables.{stocked, stocked-IsValid, handler}
use beacon_v.Examples.Tables.{router_row}
use beacon_v.Prelude.{◌+◌}
use beacon_v.World.{Error, null}
use beacon_v.Snmp.{Credentials, probe_defaults}
use beacon_v.Snmp.Defaults.{Agent, is_answer, community_credentials, probe_defaults-first}
use beacon_v.Store.{device_of}
use beacon_v.Store.Devices
use beacon_v.Store.Nulls.{IsErr, null-list}
use beacon_v.ConfigApi.Devices as ConfigDevices
use beacon_v.ConfigApi.Secrecy.{redact, responses-redact}
use beacon_v.ConfigApi.Traps.{TrapVarbind, text, other, extract_interface, return_or, index_name}
use beacon_v.ConfigApi.Interfaces.{description, last_index, extract_interface-parts}
use beacon_v.ChatApi.RateLimit.Fairness.{clock, next_served, allow-next}
use beacon_v.Watcher.{decrypt_credentials}
use beacon_v.Watcher.Telegraf.{DeviceTemplateData, device_config}
use beacon_v.Watcher.Agreement.{Agrees, device_config-Agrees}
use beacon_v.Prelude.{◌<>◌}
use beacon_v.ChatApi.Sql.{sql_quote, read_literal, read_sql, read_sql-sql_quote}
use beacon_v.ChatApi.Devices.{
  KnownDevice, has_address, has_name, has_name_prefix, resolve_device, Outcome,
  resolve_device-Outcome,
}
use beacon_v.ChatApi.Schema.{gauge, lookup_column, Words, lookup_column-Words}

responses-redact_example :
    ((ConfigDevices.list sample_env handler (redact stocked)).0
      ≡ (ConfigDevices.list sample_env handler stocked).0)
    × ((ConfigDevices.get sample_env handler "1" (redact stocked)).0
        ≡ (ConfigDevices.get sample_env handler "1" stocked).0)
responses-redact_example = responses-redact sample_env handler stocked "1"

abbrev calls : List Call
calls = ("10.0.0.9", 5) ∷ ("10.0.0.9", 1) ∷ ("10.0.0.8", 1) ∷ ("10.0.0.9", 1) ∷ []

allow-limit_example :
    length (keep (in_window 60 7) (served (new_rate_limiter 2 60) "10.0.0.9" 0 calls)) ≤ 2
allow-limit_example = allow-limit 2 60 "10.0.0.9" calls 7

abbrev before : List ℕ
before = served (new_rate_limiter 2 60) "10.0.0.9" 0 calls

allow-next_example :
    served (new_rate_limiter 2 60) "10.0.0.9" 0 (calls ++ ("10.0.0.9", 70) ∷ [])
    ≡ before ++ next_served 60 2 before (clock 0 calls + 70)
allow-next_example = allow-next 2 60 "10.0.0.9" calls 70

null-list_example :
    IsErr
      (Devices.list sample_env (update sample_env (pos 1) (("hostname", null) ∷ []) stocked).1).0
unfolding update or_fail
null-list_example = null-list sample_env stocked (pos 1) stocked-IsValid refl

-- An agent that answers SNMPv1 with "public" only, as on old devices.
abbrev old_agent : SnmpVersion → String → Bool
old_agent version1 community = community == "public"
old_agent _ community = false

abbrev none_if : Bool → Option Error
none_if true = none
none_if false = some (message "request timeout")

abbrev old_env : Env
old_env = record sample_env { get = λ t c oid. none_if (old_agent c.version c.community) }

is_answer-none_if : (b : Bool) → is_answer (none_if b) ≡ b
is_answer-none_if true = refl
is_answer-none_if false = refl

old_env-Agent : Agent old_env "10.0.0.1" old_agent
old_env-Agent = record {
  connects = λ t c e. refl;
  reads = λ t c e. is_answer-none_if (old_agent c.version c.community);
}

probe_defaults-first_example :
    (probe_defaults old_env "10.0.0.1" 5 stocked).0 ≡ ok (community_credentials "v1" "public")
probe_defaults-first_example =
    probe_defaults-first old_env "10.0.0.1" 5 old_agent old_env-Agent stocked

abbrev varbinds : List TrapVarbind
varbinds =
    record { oid = ".1.3.6.1.2.1.2.2.1.1.3"; value = other "3" }
    ∷ record { oid = ".1.3.6.1.2.1.2.2.1.2.3"; value = text "eth0" }
    ∷ []

extract_interface-parts_example :
    extract_interface (λ _. some varbinds) "[]"
    ≡ return_or (description varbinds) (index_name (last_index "" varbinds))
extract_interface-parts_example = extract_interface-parts (λ _. some varbinds) "[]" varbinds refl

abbrev router_credentials : Credentials
router_credentials = record {
  version = "v2c";
  community = "";
  v3_user = "";
  v3_auth_key = "";
  v3_priv_key = "";
  v3_auth_protocol = "";
  v3_priv_protocol = "";
}

device_config-Agrees_example :
    (conf : DeviceTemplateData) × (device_config sample_key (device_of router_row) ≡ ok conf)
    × Agrees router_credentials "10.0.0.1" conf
unfolding decrypt_credentials decrypt
device_config-Agrees_example =
    device_config-Agrees sample_key (device_of router_row) router_credentials refl

read_sql-sql_quote_example : read_sql (sql_quote "it's" <> " AND x") ≡ some ("it's", " AND x")
unfolding read_literal
read_sql-sql_quote_example = read_sql-sql_quote "it's" " AND x" refl

lookup_column-Words_example :
    Words "cpu" "cpu1min" (record { kind = gauge; sub_dimension = ""; sub_dimension_default = "" })
unfolding lookup_column
lookup_column-Words_example = lookup_column-Words "cpu" "cpu1min" _ refl

abbrev known_device : String → String → KnownDevice
known_device name address = record {
  hostname = name;
  ip_address = address;
  status = "active";
  group_name = "";
}

abbrev known_devices : List KnownDevice
known_devices = known_device "R1.lab" "10.0.0.1" ∷ known_device "R2.lab" "10.0.0.2" ∷ []

abbrev same_text : String → String
same_text s = s

abbrev same_texts : String → String → Bool
same_texts s t = s == t

resolve_device-Outcome_example :
    Outcome
      (has_address "R2")
      (has_name same_text same_text same_texts "R2")
      (has_name_prefix same_text same_text same_texts "R2")
      known_devices
      (ok (known_device "R2.lab" "10.0.0.2"))
unfolding resolve_device
resolve_device-Outcome_example =
    resolve_device-Outcome same_text same_text same_texts known_devices "R2"

abbrev route : String → Pdu
route hop = record { name = ""; type_name = "IPAddress"; value = text hop }

abbrev routes : List Pdu
routes = route "10.0.0.2" ∷ route "0.0.0.0" ∷ route "10.0.0.2" ∷ []

next_hops-reported_example :
    (distinct (next_hops [] routes) ≡ true)
    × ((hop : String)
        → contains_hop (next_hops [] routes) hop ≡ (is_usable hop && reported routes hop))
next_hops-reported_example = next_hops-reported routes
