-- ===== src/Watcher.antt =====
-- config-watcher: the background service. A function that logs an error and returns is an action
-- that fails; the main loop drops the failure.
pub mod Discovery
pub mod Gateway
pub mod Sweep
pub mod Health
pub mod Telegraf
pub mod Loop
pub mod Periods
pub mod StatusOnly
pub mod Preservation
pub mod Reconcile
pub mod Agreement
use beacon_v.Prelude.{String}
use beacon_v.Exec.{Result, ok, err}
use beacon_v.World.{Error}
use beacon_v.Crypto.{Key, decrypt}
use beacon_v.Snmp.{Credentials}
use beacon_v.Store.{Device}

abbrev pub credentials_of :
    Device
    → Result Error String
    → Result Error String
    → Result Error String
    → Result Error Credentials
credentials_of d (err e) _ _ = err e
credentials_of d (ok _) (err e) _ = err e
credentials_of d (ok _) (ok _) (err e) = err e
credentials_of d (ok community) (ok auth_key) (ok priv_key) = ok (record {
  version = d.snmp_version;
  community = community;
  v3_user = d.v3_user;
  v3_auth_key = auth_key;
  v3_priv_key = priv_key;
  v3_auth_protocol = d.v3_auth_protocol;
  v3_priv_protocol = d.v3_priv_protocol;
})

-- The first field that does not decrypt is the error.
unfoldable pub decrypt_credentials : Key → Device → Result Error Credentials
decrypt_credentials key d =
    credentials_of d (decrypt key d.community) (decrypt key d.v3_auth_key)
      (decrypt key d.v3_priv_key)
