-- ===== src/Watcher/Telegraf.antt =====
-- config-watcher/telegraf_gen.go and reload.go, and reconcileTelegrafConfig of main.go: the
-- configuration of Telegraf follows the active devices. The template (parsing and executing
-- telegraf.conf.tmpl) is a parameter, as are the file system and `docker exec`.
use beacon_v.Prelude.{
  ℕ, suc, String, Bool, true, false, Option, none, some, List, [], ◌∷◌, ◌==◌, if◌then◌else◌, ℤ,
  parse_int,
}
use beacon_v.Exec.{Result, ok, err, gets, modify, pure, lift, ◌>>=◌, ◌>>◌, or_fail, map_err}
use beacon_v.World.{Error, wrap, Env, Go, call}
use beacon_v.Crypto.{Key, decrypt}
use beacon_v.Store.{Device}
use beacon_v.Store.Devices
use beacon_v.Store.Settings
use beacon_v.ConfigApi.Settings.{polling_interval_key, atoi}

pub record DeviceTemplateData : Type 0 where
  pub ip_address : String
  pub version_number : ℕ
  pub community : String
  pub v3_user : String
  pub v3_sec_level : String
  pub v3_auth_protocol : String
  pub v3_auth_password : String
  pub v3_priv_protocol : String
  pub v3_priv_password : String

-- The fixed part of the configuration, from the environment variables.
pub record InfluxConfig : Type 0 where
  pub url : String
  pub token : String
  pub database : String

pub record TelegrafTemplateData : Type 0 where
  pub polling_interval_seconds : ℤ
  pub influx : InfluxConfig
  pub devices : List DeviceTemplateData

unfoldable pub version_number : String → ℕ
version_number v = if v == "v1" then 1 else if v == "v3" then 3 else 2

unfoldable pub v3_sec_level : String → String → String
v3_sec_level auth_key priv_key =
    if priv_key == "" then (if auth_key == "" then "noAuthNoPriv" else "authNoPriv") else "authPriv"

abbrev pub data_of : Device → (community auth_key priv_key : String) → DeviceTemplateData
data_of d community auth_key priv_key = record {
  ip_address = d.ip_address;
  version_number = version_number d.snmp_version;
  community = community;
  v3_user = d.v3_user;
  v3_sec_level = v3_sec_level auth_key priv_key;
  v3_auth_protocol = d.v3_auth_protocol;
  v3_auth_password = auth_key;
  v3_priv_protocol = d.v3_priv_protocol;
  v3_priv_password = priv_key;
}

abbrev pub config_of :
    Device
    → Result Error String
    → Result Error String
    → Result Error String
    → Result Error DeviceTemplateData
config_of d (err e) _ _ = err (wrap "telegraf_gen: decrypting community" e)
config_of d (ok _) (err e) _ = err (wrap "telegraf_gen: decrypting v3 auth key" e)
config_of d (ok _) (ok _) (err e) = err (wrap "telegraf_gen: decrypting v3 priv key" e)
config_of d (ok community) (ok auth_key) (ok priv_key) = ok (data_of d community auth_key priv_key)

unfoldable pub device_config : Key → Device → Result Error DeviceTemplateData
unfolding version_number v3_sec_level decrypt
device_config key d =
    config_of d (decrypt key d.community) (decrypt key d.v3_auth_key) (decrypt key d.v3_priv_key)

abbrev append_config :
    Result Error DeviceTemplateData
    → Result Error (List DeviceTemplateData)
    → Result Error (List DeviceTemplateData)
append_config (err e) _ = err e
append_config (ok c) (err e) = err e
append_config (ok c) (ok cs) = ok (c ∷ cs)

-- One device that does not decrypt fails the whole configuration.
unfoldable pub build_device_configs : Key → List Device → Result Error (List DeviceTemplateData)
unfolding device_config
build_device_configs key [] = ok []
build_device_configs key (d ∷ ds) =
    append_config (device_config key d) (build_device_configs key ds)

module _ (env : Env) (template : TelegrafTemplateData → Result Error String) where
  abbrev execute : ℤ → InfluxConfig → Result Error (List DeviceTemplateData) → Result Error String
  execute interval influx (err e) = err e
  execute interval influx (ok configs) = map_err (wrap "telegraf_gen: executing template") (
      template (record { polling_interval_seconds = interval; influx = influx; devices = configs }))

  unfoldable pub render_telegraf_config : ℤ → InfluxConfig → List Device → Key → Result Error String
  unfolding build_device_configs
  render_telegraf_config interval influx devices key =
      execute interval influx (build_device_configs key devices)

  abbrev pub same_content : Option String → String → Bool
  same_content none content = false
  same_content (some existing) content = existing == content

  unfoldable pub current_content : Go (Option String)
  unfolding call
  current_content = do
    or_fail (wrap "telegraf_gen: reading existing config") (call env.read_fault)
    gets (λ w. w.conf)

  -- A write that fails leaves the old content here; what os.WriteFile leaves then may be truncated.
  unfoldable pub write_content : String → Go (Unit {0})
  unfolding call
  write_content content = do
    or_fail (wrap "telegraf_gen: writing config") (call env.write_fault)
    modify tt (λ w. record w { conf = some content })

  unfoldable pub write_if_changed : String → Go Bool
  unfolding current_content write_content
  write_if_changed content = do
    existing ← current_content
    if same_content existing content then pure false else (do write_content content; pure true)

  -- The container gets its signal, or the command fails.
  unfoldable pub reload_telegraf : Go (Unit {0})
  unfolding call
  reload_telegraf = do
    or_fail (wrap "reload: docker exec") (call env.reload_fault)
    modify tt (λ w. record w { reloads = suc w.reloads })

  unfoldable pub reconcile_telegraf_config : InfluxConfig → Key → Go (Unit {0})
  unfolding render_telegraf_config write_if_changed reload_telegraf
  reconcile_telegraf_config influx key = do
    text ← Settings.get env polling_interval_key
    interval ← lift (atoi (parse_int text))
    devices ← Devices.list_by_status env "active"
    rendered ← lift (render_telegraf_config interval influx devices key)
    changed ← write_if_changed rendered
    if changed then reload_telegraf else pure tt
