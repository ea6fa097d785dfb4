-- ===== src/Watcher/Loop.antt =====
-- config-watcher/main.go: the main loop, as the sequence of the ticks that its `select` received.
use beacon_v.Prelude.{
  String, List, [], ◌∷◌, if◌then◌else◌, ℤ, pos, suc, ℕ, Option, some, negsuc, parse_int, ltb, ◌*◌,
  ◌-◌, ◌%◌,
}
use beacon_v.Process.{env_or_default}
use beacon_v.Exec.{Result}
use beacon_v.World.{Error, Env, World}
use beacon_v.Crypto.{Key}
use beacon_v.Watcher.Discovery.{discover_gateway_device}
use beacon_v.Watcher.Health.{check_device_health}
use beacon_v.Watcher.Sweep.{run_discovery_sweep}
use beacon_v.Watcher.Telegraf.{TelegrafTemplateData, InfluxConfig, reconcile_telegraf_config}

pub data Tick : Type 0 where
  reconcile health sweep : Tick

-- A positive number of seconds, or the default.
unfoldable pub seconds_or : ℕ → Option ℤ → ℕ
seconds_or fallback (some (pos (suc n))) = suc n
seconds_or fallback _ = fallback

-- `strconv.Atoi` of a variable, with its default text and its default number.
abbrev seconds_of : (String → String) → String → String → ℕ → ℕ
seconds_of getenv key text fallback =
    seconds_or fallback (parse_int (env_or_default getenv key text))

unfoldable pub poll_seconds : (String → String) → ℕ
unfolding seconds_or parse_int env_or_default
poll_seconds getenv = seconds_of getenv "CONFIG_WATCHER_POLL_SECONDS" "10" 10

unfoldable pub sweep_seconds : (String → String) → ℕ
unfolding seconds_or parse_int env_or_default
sweep_seconds getenv = seconds_of getenv "DISCOVERY_SWEEP_INTERVAL_SECONDS" "300" 300

-- `time.Duration(seconds) * time.Second`, a product in 64 bits.
unfoldable pub ticker_period : ℕ → ℤ
ticker_period seconds =
    let d = (seconds * 1000000000) % 18446744073709551616 in
    if ltb d 9223372036854775808 then pos d else negsuc (18446744073709551615 - d)

pub record WatcherConfig : Type 0 where
  pub template_path : String
  pub config_path : String
  pub container_name : String
  pub influx : InfluxConfig

unfoldable pub watcher_config : (String → String) → WatcherConfig
unfolding env_or_default
watcher_config getenv = record {
  template_path = env_or_default getenv "TELEGRAF_TEMPLATE_PATH" "/telegraf.conf.tmpl";
  config_path = env_or_default getenv "TELEGRAF_CONF_PATH" "/etc/telegraf/telegraf.conf";
  container_name = env_or_default getenv "TELEGRAF_CONTAINER_NAME" "telegraf";
  influx = record {
    url = env_or_default getenv "INFLUXDB_URL" "http://influxdb:8181";
    token = getenv "INFLUXDB_TOKEN";
    database = env_or_default getenv "INFLUXDB_DATABASE" "network_monitor";
  };
}

module _ (env : Env) (key : Key) (template : TelegrafTemplateData → Result Error String)
    (influx : InfluxConfig) where
  unfoldable pub on_tick : Tick → World → World
  on_tick reconcile w = (reconcile_telegraf_config env template influx key w).1
  on_tick health w = (check_device_health env key w).1
  on_tick sweep w = (run_discovery_sweep env key w).1

  unfoldable pub run_ticks : List Tick → World → World
  unfolding on_tick
  run_ticks [] w = w
  run_ticks (t ∷ ts) w = run_ticks ts (on_tick t w)

  -- The gateway, one health check and one reconciliation, then the ticks until shutdown.
  unfoldable pub run : Result Error String → List Tick → World → World
  unfolding run_ticks
  run gateway ticks w =
      let found = (discover_gateway_device env key gateway w).1 in
      run_ticks (health ∷ reconcile ∷ ticks) found
