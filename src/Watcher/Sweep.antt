-- ===== src/Watcher/Sweep.antt =====
-- config-watcher/discovery_sweep.go: the routing tables of the active devices give new devices.
pub mod Insertion
pub mod Bounds
use beacon_v.Prelude.{
  ℕ, suc, ◌*◌, String, Bool, true, false, List, [], ◌∷◌, ◌==◌, leb, if◌then◌else◌,
}
use beacon_v.Exec.{Result, ok, err, pure, ◌>>=◌, attempt}
use beacon_v.Netutil.{is_public}
use beacon_v.World.{Error, not_found, Env, Go}
use beacon_v.Crypto.{Key, encrypt}
use beacon_v.Snmp.{Credentials, verify, verdict, walk_route_next_hops, second}
use beacon_v.Store.{Device}
use beacon_v.Store.Devices
use beacon_v.Store.Settings
use beacon_v.Watcher.{decrypt_credentials}
use beacon_v.Watcher.Discovery.{blank_device}

abbrev pub route_sweep_timeout : ℕ
route_sweep_timeout = 3 * second

abbrev pub max_new_devices_per_sweep : ℕ
max_new_devices_per_sweep = 10

-- Only an address that is not in the table goes on.
abbrev pub untracked : Result Error Device → Bool
untracked (err not_found) = true
untracked _ = false

abbrev pub created : Result Error ℕ → Bool
created (ok _) = true
created (err _) = false

abbrev pub with_credentials : Credentials → Result Error String → Device → Device
with_credentials creds (err _) d = d
with_credentials creds (ok community) d = record d {
  snmp_version = creds.version;
  community = community;
}

abbrev pub discovered : String → Device
discovered ip = record blank_device {
  ip_address = ip;
  is_public_ip = false;
  discovered_via = "routing_table_sweep";
  status = "pending";
}

module _ (env : Env) (key : Key) where
  unfoldable pub should_consider_discovered_ip : String → String → Go Bool
  should_consider_discovered_ip ip parent_ip =
      if ip == parent_ip
      then pure false
      else if is_public env.v6_text ip
      then pure false
      else do r ← attempt (Devices.get_by_ip env ip); pure (untracked r)

  -- With duplication, the parent's version and community are attached and its credentials tried.
  unfoldable pub draft : String → Credentials → Bool → Go Device
  draft ip creds false = pure (discovered ip)
  draft ip creds true = do
    community ← attempt (encrypt env key creds.community)
    r ← attempt (verify env ip creds route_sweep_timeout)
    pure (record (with_credentials creds community (discovered ip)) { status = verdict r })

  unfoldable pub insert_discovered_device : String → Credentials → Bool → Go Bool
  unfolding draft
  insert_discovered_device ip creds dup_enabled = do
    d ← draft ip creds dup_enabled
    r ← attempt (Devices.create env d)
    pure (created r)

  -- One round of the inner loop: the number of new devices after it.
  unfoldable pub sweep_hop : Device → Credentials → Bool → ℕ → String → Go ℕ
  unfolding should_consider_discovered_ip insert_discovered_device
  sweep_hop parent creds dup_enabled count hop = do
    wanted ← should_consider_discovered_ip hop parent.ip_address
    if wanted
        then (do
          inserted ← insert_discovered_device hop creds dup_enabled
          pure (if inserted then suc count else count))
        else pure count

  unfoldable pub sweep_hops : Device → Credentials → Bool → ℕ → List String → Go ℕ
  unfolding sweep_hop
  sweep_hops parent creds dup_enabled count [] = pure count
  sweep_hops parent creds dup_enabled count (hop ∷ hops) =
      if leb max_new_devices_per_sweep count then pure count else do
        count' ← sweep_hop parent creds dup_enabled count hop
        sweep_hops parent creds dup_enabled count' hops

  abbrev pub sweep_walked : Device → Credentials → Bool → ℕ → Result Error (List String) → Go ℕ
  sweep_walked parent creds dup_enabled count (err _) = pure count
  sweep_walked parent creds dup_enabled count (ok hops) =
      sweep_hops parent creds dup_enabled count hops

  abbrev pub sweep_parent : Device → Bool → ℕ → Result Error Credentials → Go ℕ
  sweep_parent parent dup_enabled count (err _) = pure count
  sweep_parent parent dup_enabled count (ok creds) = do
    walked ← attempt (walk_route_next_hops env parent.ip_address creds route_sweep_timeout)
    sweep_walked parent creds dup_enabled count walked

  unfoldable pub sweep_parents : Bool → ℕ → List Device → Go ℕ
  unfolding sweep_hops
  sweep_parents dup_enabled count [] = pure count
  sweep_parents dup_enabled count (parent ∷ parents) =
      if leb max_new_devices_per_sweep count then pure count else do
        count' ← sweep_parent parent dup_enabled count (decrypt_credentials key parent)
        sweep_parents dup_enabled count' parents

  unfoldable pub run_discovery_sweep : Go ℕ
  unfolding sweep_parents
  run_discovery_sweep = do
    dup_enabled ← Settings.get env "credential_duplication_enabled"
    parents ← Devices.list_by_status env "active"
    sweep_parents (dup_enabled == "1") 0 parents
