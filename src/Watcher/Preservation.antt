-- ===== src/Watcher/Preservation.antt =====
-- The rounds of config-watcher keep what every write of the services keeps.
use beacon_v.Prelude.{ℕ, String, List, [], ◌∷◌, Bool, true, false, leb, Option}
use beacon_v.Exec.{Result, ok, err}
use beacon_v.Exec.Keeps.{
  Keeps, Keeps-attempt, Keeps-bind, Keeps-pure, Keeps-fail, Keeps-or_fail, Keeps-if, Keeps-lift,
  Keeps-modify, Keeps-for_each, keeps_rules,
}
use beacon_v.World.{Error, not_found, probe_failed, empty_key, message, wrap, World, Env, call}
use beacon_v.World.Ticks.{call-keeps}
use beacon_v.Crypto.{Key}
use beacon_v.Crypto.RoundTrip.{encrypt-keeps}
use beacon_v.Snmp.{Credentials}
use beacon_v.Snmp.Probing.{verify-keeps, walk-keeps, probe_defaults-keeps}
use beacon_v.Store.{Device}
use beacon_v.Store.Preservation.{list-keeps, list_by_status-keeps, get_by_ip-keeps}
use beacon_v.System.Stable.{Stable, setting-keeps}
use beacon_v.Watcher.Discovery.{record_probe, probe_and_update, track, discover_gateway_device}
use beacon_v.Watcher.Sweep.{
  max_new_devices_per_sweep, should_consider_discovered_ip, draft, insert_discovered_device,
  sweep_hop, sweep_hops, sweep_walked, sweep_parent, sweep_parents, run_discovery_sweep,
}
use beacon_v.Watcher.Health.{check_with, check_device, check_device_health}
use beacon_v.Watcher.Telegraf.{
  TelegrafTemplateData, InfluxConfig, current_content, write_content, write_if_changed,
  reload_telegraf, reconcile_telegraf_config,
}
use beacon_v.Watcher.Loop.{Tick, reconcile, health, sweep, on_tick}

module _ {P : World → Type 0} (env : Env) (stable : Stable env P) (key : Key) where
  record_probe-Keeps : (id : ℕ) (r : Result Error Credentials) → Keeps P (record_probe env key id r)
  unfolding record_probe
  record_probe-Keeps id (err e) = stable.updates _ _
  record_probe-Keeps id (ok creds) =
      Keeps-bind _ _ (encrypt-keeps stable.ignores env key _) (λ c. stable.updates _ _)

  probe_and_update-Keeps : (id : ℕ) (ip : String) → Keeps P (probe_and_update env key id ip)
  unfolding probe_and_update
  probe_and_update-Keeps id ip =
      Keeps-bind _ _ (Keeps-attempt _ (probe_defaults-keeps stable.ignores env ip _))
        (record_probe-Keeps id)

  track-Keeps : (ip : String) (r : Result Error Device) → Keeps P (track env key ip r)
  track-Keeps ip (ok d) = Keeps-pure tt
  track-Keeps ip (err not_found) =
      Keeps-bind _ _ (stable.creates _) (λ id. probe_and_update-Keeps id ip)
  track-Keeps ip (err probe_failed) = Keeps-fail _
  track-Keeps ip (err empty_key) = Keeps-fail _
  track-Keeps ip (err (message s)) = Keeps-fail _
  track-Keeps ip (err (wrap s e)) = Keeps-fail _

  pub discover_gateway_device-Keeps :
      (gateway : Result Error String) → Keeps P (discover_gateway_device env key gateway)
  unfolding discover_gateway_device
  discover_gateway_device-Keeps gateway =
      search (keeps_rules, get_by_ip-keeps stable.ignores env, track-Keeps)

  -- The sweep.
  consider-Keeps : (ip parent : String) → Keeps P (should_consider_discovered_ip env key ip parent)
  unfolding should_consider_discovered_ip
  consider-Keeps ip parent = search (keeps_rules, get_by_ip-keeps stable.ignores env)

  draft-Keeps :
      (ip : String) (creds : Credentials) (dup : Bool) → Keeps P (draft env key ip creds dup)
  unfolding draft
  draft-Keeps ip creds false = Keeps-pure _
  draft-Keeps ip creds true =
      search (keeps_rules, encrypt-keeps stable.ignores env, verify-keeps stable.ignores env) depth
        9

  insert-Keeps :
      (ip : String) (creds : Credentials) (dup : Bool)
      → Keeps P (insert_discovered_device env key ip creds dup)
  unfolding insert_discovered_device
  insert-Keeps ip creds dup = search (keeps_rules, draft-Keeps, stable.creates) depth 9

  hop-Keeps :
      (parent : Device) (creds : Credentials) (dup : Bool) (count : ℕ) (hop : String)
      → Keeps P (sweep_hop env key parent creds dup count hop)
  unfolding sweep_hop
  hop-Keeps parent creds dup count hop = search (keeps_rules, consider-Keeps, insert-Keeps) depth 9

  hops-Keeps :
      (hops : List String) (parent : Device) (creds : Credentials) (dup : Bool) (count : ℕ)
      → Keeps P (sweep_hops env key parent creds dup count hops)
  unfolding sweep_hops
  hops-Keeps [] parent creds dup count = Keeps-pure _
  hops-Keeps (hop ∷ hops) parent creds dup count =
      Keeps-if (leb max_new_devices_per_sweep count) _ _ (λ _. Keeps-pure count)
        λ _.
          Keeps-bind _ _ (hop-Keeps parent creds dup count hop)
            (λ n. hops-Keeps hops parent creds dup n)

  walked-Keeps :
      (parent : Device) (creds : Credentials) (dup : Bool) (count : ℕ)
      (r : Result Error (List String))
      → Keeps P (sweep_walked env key parent creds dup count r)
  walked-Keeps parent creds dup count (err e) = Keeps-pure _
  walked-Keeps parent creds dup count (ok hops) = hops-Keeps hops parent creds dup count

  parent-Keeps :
      (parent : Device) (dup : Bool) (count : ℕ) (r : Result Error Credentials)
      → Keeps P (sweep_parent env key parent dup count r)
  parent-Keeps parent dup count (err e) = Keeps-pure _
  parent-Keeps parent dup count (ok creds) =
      Keeps-bind _ _ (Keeps-attempt _ (walk-keeps stable.ignores env _ creds _))
        (walked-Keeps parent creds dup count)

  parents-Keeps :
      (parents : List Device) (dup : Bool) (count : ℕ)
      → Keeps P (sweep_parents env key dup count parents)
  unfolding sweep_parents
  parents-Keeps [] dup count = Keeps-pure _
  parents-Keeps (parent ∷ parents) dup count =
      Keeps-if (leb max_new_devices_per_sweep count) _ _ (λ _. Keeps-pure count)
        λ _. Keeps-bind _ _ (parent-Keeps parent dup count _) (parents-Keeps parents dup)

  run_discovery_sweep-Keeps : Keeps P (run_discovery_sweep env key)
  unfolding run_discovery_sweep
  run_discovery_sweep-Keeps = Keeps-bind _ _ (setting-keeps stable.ignores env _) λ dup.
      Keeps-bind _ _ (list_by_status-keeps stable.ignores env _)
        (λ parents. parents-Keeps parents _ 0)

  -- The health check.
  check_with-Keeps : (d : Device) (r : Result Error Credentials) → Keeps P (check_with env key d r)
  check_with-Keeps d (err e) = Keeps-pure tt
  check_with-Keeps d (ok creds) =
      search (keeps_rules, verify-keeps stable.ignores env, stable.updates) depth 9

  check_device-Keeps : (d : Device) → Keeps P (check_device env key d)
  unfolding check_device
  check_device-Keeps d = search (keeps_rules, check_with-Keeps)

  check_device_health-Keeps : Keeps P (check_device_health env key)
  unfolding check_device_health
  check_device_health-Keeps =
      Keeps-bind _ _ (list-keeps stable.ignores env)
        (λ all. Keeps-for_each all _ check_device-Keeps)

  module _ (template : TelegrafTemplateData → Result Error String) (influx : InfluxConfig) where
    calls : (answer : ℕ → Option Error) → Keeps P (call answer)
    calls = call-keeps stable.ignores

    current_content-Keeps : Keeps P (current_content env template)
    unfolding current_content
    current_content-Keeps = search (keeps_rules, calls)

    write_content-Keeps : (content : String) → Keeps P (write_content env template content)
    unfolding write_content
    write_content-Keeps content =
        Keeps-bind _ _ (Keeps-or_fail _ _ (calls _))
          (λ _. Keeps-modify _ _ (stable.writes_conf content))

    reload_telegraf-Keeps : Keeps P (reload_telegraf env template)
    unfolding reload_telegraf
    reload_telegraf-Keeps =
        Keeps-bind _ _ (Keeps-or_fail _ _ (calls _)) (λ _. Keeps-modify _ _ stable.reloads_once)

    write_if_changed-Keeps : (content : String) → Keeps P (write_if_changed env template content)
    unfolding write_if_changed
    write_if_changed-Keeps content =
        Keeps-bind _ _ current_content-Keeps (λ existing. search (keeps_rules, write_content-Keeps))

    reconcile-Keeps : Keeps P (reconcile_telegraf_config env template influx key)
    unfolding reconcile_telegraf_config
    reconcile-Keeps = Keeps-bind _ _ (setting-keeps stable.ignores env _) λ text.
        Keeps-bind _ _ (Keeps-lift _) λ interval.
          Keeps-bind _ _ (list_by_status-keeps stable.ignores env _) λ devices.
            Keeps-bind _ _ (Keeps-lift _) λ rendered.
              Keeps-bind _ _ (write_if_changed-Keeps rendered)
                λ changed. Keeps-if changed _ _ (λ _. reload_telegraf-Keeps) (λ _. Keeps-pure tt)

    pub on_tick-keeps : (t : Tick) (w : World) → P w → P (on_tick env key template influx t w)
    unfolding on_tick
    on_tick-keeps reconcile w h = reconcile-Keeps.after w h
    on_tick-keeps health w h = check_device_health-Keeps.after w h
    on_tick-keeps sweep w h = run_discovery_sweep-Keeps.after w h
