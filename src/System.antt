-- ===== src/System.antt =====
-- The services together, on the tables they share: config-api's handlers, config-watcher's rounds and
-- trap-receiver's packets as the actions of one system.
pub mod Stable
pub mod Sound
pub mod Preservation
pub mod Invariant
pub mod FirstStart
pub mod Inventory
pub mod Statements
use beacon_v.Prelude.{ℕ, String, Bool, Option, List, ℤ}
use beacon_v.Exec.{Result}
use beacon_v.World.{Error, Json, World, Env}
use beacon_v.ConfigApi.Devices
use beacon_v.ConfigApi.Devices.{DeviceHandler, DeviceRequest}
use beacon_v.ConfigApi.Settings
use beacon_v.ConfigApi.Traps
use beacon_v.ConfigApi.Traps.{TrapsHandler, TrapVarbind}
use beacon_v.Watcher.Discovery.{discover_gateway_device}
use beacon_v.Watcher.Loop.{Tick, on_tick}
use beacon_v.Watcher.Telegraf.{TelegrafTemplateData, InfluxConfig}
use beacon_v.TrapReceiver.{Packet, Varbind, handle_trap}

-- The parts of the services that do not change, and the libraries that they call.
pub record Deployment : Type 0 where
  pub env : Env
  pub device_handler : DeviceHandler
  pub traps_handler : TrapsHandler
  pub template : TelegrafTemplateData → Result Error String
  pub influx : InfluxConfig
  pub decode_payload : String → Option (List TrapVarbind)
  pub utf8_text : List ℕ → Option String
  pub hex_text : List ℕ → String
  pub marshal : List Varbind → Result Error String

-- A decoded HTTP request, a tick of the watcher, its start, or a packet.
pub data Action : Type 0 where
  list_devices : Action
  get_device : String → Action
  create_device : Result Error DeviceRequest → Action
  update_device : String → Result Error (List (String × Json)) → Action
  delete_device : String → Action
  get_interval : Action
  set_interval : Result Error ℤ → Action
  get_duplication : Action
  set_duplication : Result Error Bool → Action
  list_traps : String → Action
  list_readable_traps : String → Action
  discover_gateway : Result Error String → Action
  watcher_tick : Tick → Action
  packet : Packet → String → Action

module _ (d : Deployment) where
  unfoldable pub run : Action → World → World
  run list_devices w = (Devices.list d.env d.device_handler w).1
  run (get_device id) w = (Devices.get d.env d.device_handler id w).1
  run (create_device body) w = (Devices.create d.env d.device_handler body w).1
  run (update_device id body) w = (Devices.update d.env d.device_handler id body w).1
  run (delete_device id) w = (Devices.delete d.env d.device_handler id w).1
  run get_interval w = (Settings.get_polling_interval d.env w).1
  run (set_interval body) w = (Settings.set_polling_interval d.env body w).1
  run get_duplication w = (Settings.get_credential_duplication d.env w).1
  run (set_duplication body) w = (Settings.set_credential_duplication d.env body w).1
  run (list_traps query) w = (Traps.list d.env d.traps_handler query w).1
  run (list_readable_traps query) w =
      (Traps.list_readable d.env d.traps_handler d.decode_payload query w).1
  run (discover_gateway ip) w = (discover_gateway_device d.env d.device_handler.key ip w).1
  run (watcher_tick t) w = on_tick d.env d.device_handler.key d.template d.influx t w
  run (packet p source) w = (handle_trap d.env d.utf8_text d.hex_text d.marshal p source w).1

  -- The worlds that a sequence of actions leads to.
  pub data Reach (start : World) : World → Type 0 where
    here : Reach start start
    later : {w : World} → Reach start w → (a : Action) → Reach start (run a w)
