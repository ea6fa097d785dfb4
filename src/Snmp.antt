-- ===== src/Snmp.antt =====
-- internal/snmp: clients and probes (probe.go), the walk of a routing table (routes.go); the names
-- of traps (trapnames.go) are in the child module TrapNames.
-- gosnmp itself is the environment: it says whether a connection, a read or a walk fails.
pub mod TrapNames
pub mod Probing
pub mod Defaults
pub mod Hops
use beacon_v.Prelude.{
  ℕ, ◌*◌, String, Bool, true, false, ◌||◌, Option, none, some, List, [], ◌∷◌, ◌++◌, ◌==◌,
  if◌then◌else◌, ◌<>◌,
}
use beacon_v.Exec.{Result, ok, err, Exec, pure, fail, lift, ◌>>=◌, ◌>>◌, attempt, or_fail}
use beacon_v.World.{
  Error, message, wrap, probe_failed, SnmpVersion, version1, version2c, version3, AuthProtocol,
  no_auth, md5, sha, PrivProtocol, no_priv, des, aes, MsgFlags, no_auth_no_priv, auth_no_priv,
  auth_priv, Usm, Client, Pdu, PduValue, text, Env, Go, World, call, tick, outcome,
}

abbrev pub second : ℕ
second = 1_000_000_000

abbrev pub sys_descr0 : String
sys_descr0 = "1.3.6.1.2.1.1.1.0"

abbrev pub ip_route_next_hop_oid : String
ip_route_next_hop_oid = ".1.3.6.1.2.1.4.21.1.7"

pub record Credentials : Type 0 where
  pub version : String
  pub community : String
  pub v3_user : String
  pub v3_auth_key : String
  pub v3_priv_key : String
  pub v3_auth_protocol : String
  pub v3_priv_protocol : String

abbrev pub no_credentials : Credentials
no_credentials = record {
  version = "";
  community = "";
  v3_user = "";
  v3_auth_key = "";
  v3_priv_key = "";
  v3_auth_protocol = "";
  v3_priv_protocol = "";
}

-- Tried in order.
abbrev pub default_communities : List (SnmpVersion × String)
default_communities = (version2c, "public") ∷ (version2c, "private") ∷ (version1, "public") ∷ []

unfoldable pub parse_auth_protocol : String → Result Error AuthProtocol
parse_auth_protocol s =
    if s == "" || s == "NoAuth"
    then ok no_auth
    else if s == "MD5"
    then ok md5
    else if s == "SHA"
    then ok sha
    else err (message ("snmp: unsupported auth protocol " <> s))

unfoldable pub parse_priv_protocol : String → Result Error PrivProtocol
parse_priv_protocol s =
    if s == "" || s == "NoPriv"
    then ok no_priv
    else if s == "DES"
    then ok des
    else if s == "AES"
    then ok aes
    else err (message ("snmp: unsupported privacy protocol " <> s))

-- The later test overrides the earlier one.
unfoldable pub msg_flags : Credentials → MsgFlags
msg_flags creds =
    let with_auth : MsgFlags = if creds.v3_auth_key == "" then no_auth_no_priv else auth_no_priv in
    if creds.v3_priv_key == "" then with_auth else auth_priv

module _ (ip : String) (creds : Credentials) (timeout : ℕ) where
  abbrev pub by_community : SnmpVersion → Client
  by_community version = record {
    target = ip;
    port = 161;
    timeout = timeout;
    retries = 1;
    transport = "udp";
    version = version;
    community = creds.community;
    msg_flags = no_auth_no_priv;
    security = none;
  }

  abbrev pub by_user : Result Error AuthProtocol → Result Error PrivProtocol → Result Error Client
  by_user (err e) _ = err e
  by_user (ok _) (err e) = err e
  by_user (ok auth) (ok priv) = ok (record {
    target = ip;
    port = 161;
    timeout = timeout;
    retries = 1;
    transport = "udp";
    version = version3;
    community = "";
    msg_flags = msg_flags creds;
    security = some (record {
      user_name = creds.v3_user;
      authentication_protocol = auth;
      authentication_passphrase = creds.v3_auth_key;
      privacy_protocol = priv;
      privacy_passphrase = creds.v3_priv_key;
    });
  })

  unfoldable pub build_client : Result Error Client
  unfolding parse_auth_protocol parse_priv_protocol msg_flags
  build_client =
      if creds.version == "v1"
      then ok (by_community version1)
      else if creds.version == "v2c"
      then ok (by_community version2c)
      else if creds.version == "v3"
      then by_user (parse_auth_protocol creds.v3_auth_protocol)
          (parse_priv_protocol creds.v3_priv_protocol)
      else err (message ("snmp: unsupported version " <> creds.version))

abbrev pub version_text : SnmpVersion → String
version_text version1 = "v1"
version_text _ = "v2c"

abbrev pub default_creds : SnmpVersion × String → Credentials
default_creds (version, community) = record no_credentials {
  version = version_text version;
  community = community;
}

abbrev pub probed : Credentials → Go Credentials → Result Error (Unit {0}) → Go Credentials
probed creds next (ok _) = pure creds
probed creds next (err _) = next

module _ (env : Env) where
  -- One read of `sysDescr.0`. Closing the client has no outcome that the code looks at.
  unfoldable pub verify : String → Credentials → ℕ → Go (Unit {0})
  unfolding call
  verify ip creds timeout = do
    client ← lift (build_client ip creds timeout)
    or_fail (wrap ("snmp: connecting to " <> ip)) (call (λ t. env.connect t client))
    or_fail (wrap ("snmp: get sysDescr from " <> ip)) (call (λ t. env.get t client sys_descr0))

  -- The loop of `ProbeDefaults`: an error of one attempt is dropped.
  unfoldable pub probe_list : List (SnmpVersion × String) → String → ℕ → Go Credentials
  probe_list [] ip timeout = fail probe_failed
  probe_list (d ∷ ds) ip timeout = do
    r ← attempt (verify ip (default_creds d) timeout)
    probed (default_creds d) (probe_list ds ip timeout) r

  unfoldable pub probe_defaults : String → ℕ → Go Credentials
  probe_defaults = probe_list default_communities

-- The status that a probe's outcome gives.
abbrev pub verdict : Result Error (Unit {0}) → String
verdict (ok _) = "active"
verdict (err _) = "failed"

-- What the walk's callback keeps: the hops seen so far, each once, in order.
unfoldable pub contains_hop : List String → String → Bool
contains_hop [] hop = false
contains_hop (h ∷ hs) hop = if h == hop then true else contains_hop hs hop

abbrev pub collect_text : List String → String → List String
collect_text hops hop =
    if hop == "" || hop == "0.0.0.0"
    then hops
    else if contains_hop hops hop
    then hops
    else hops ++ hop ∷ []

abbrev pub collect : List String → PduValue → List String
collect hops (text hop) = collect_text hops hop
collect hops _ = hops

unfoldable pub next_hops : List String → List Pdu → List String
unfolding contains_hop
next_hops hops [] = hops
next_hops hops (pdu ∷ pdus) = next_hops (collect hops pdu.value) pdus

abbrev walked : List Pdu × Option Error → Result Error (List Pdu)
walked (pdus, failure) = outcome failure pdus

walk_call : Env → Client → String → Go (List Pdu)
walk_call env client oid w = (walked (env.walk w.ticks client oid), tick w)

unfoldable pub walk_route_next_hops : Env → String → Credentials → ℕ → Go (List String)
unfolding call walk_call next_hops
walk_route_next_hops env ip creds timeout = do
  client ← lift (build_client ip creds timeout)
  or_fail (wrap ("snmp: connecting to " <> ip)) (call (λ t. env.connect t client))
  pdus ←
      or_fail (wrap ("snmp: walking route table on " <> ip))
        (walk_call env client ip_route_next_hop_oid)
  pure (next_hops [] pdus)
