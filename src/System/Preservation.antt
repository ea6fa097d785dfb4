-- ===== src/System/Preservation.antt =====
-- What the writes of the services keep, their actions keep.
use beacon_v.Prelude.{String}
use beacon_v.Exec.Keeps.{Keeps, Keeps-bind, Keeps-lift, Keeps-pure}
use beacon_v.World.{World}
use beacon_v.ConfigApi.Reading.{
  list-HandlerKeeps, get-HandlerKeeps, get_polling_interval-HandlerKeeps,
  get_credential_duplication-HandlerKeeps, list_traps-HandlerKeeps, list_readable-HandlerKeeps,
}
use beacon_v.ConfigApi.Preservation.{
  create-HandlerKeeps, update-HandlerKeeps, delete-HandlerKeeps, set_polling_interval-HandlerKeeps,
  set_credential_duplication-HandlerKeeps,
}
use beacon_v.Watcher.Preservation.{discover_gateway_device-Keeps, on_tick-keeps}
use beacon_v.TrapReceiver.{Packet, handle_trap}
use beacon_v.System.{
  Deployment, Action, list_devices, get_device, create_device, update_device, delete_device,
  get_interval, set_interval, get_duplication, set_duplication, list_traps, list_readable_traps,
  discover_gateway, watcher_tick, packet, run,
}
use beacon_v.System.Stable.{Stable}

module _ (d : Deployment) {P : World → Type 0} (kept : Stable d.env P) where
  handle_trap-Keeps :
      (p : Packet) (source : String)
      → Keeps P (handle_trap d.env d.utf8_text d.hex_text d.marshal p source)
  unfolding handle_trap
  handle_trap-Keeps p source =
      Keeps-bind _ _ (Keeps-lift _)
        (λ payload. Keeps-bind _ _ (kept.records_trap _) (λ id. Keeps-pure tt))

  -- What every write keeps, every action keeps.
  pub run-keeps : (a : Action) (w : World) → P w → P (run d a w)
  unfolding run
  run-keeps list_devices = list-HandlerKeeps d.env kept.ignores d.device_handler
  run-keeps (get_device id) = get-HandlerKeeps d.env kept.ignores d.device_handler id
  run-keeps (create_device body) = create-HandlerKeeps d.env kept d.device_handler body
  run-keeps (update_device id body) = update-HandlerKeeps d.env kept d.device_handler id body
  run-keeps (delete_device id) = delete-HandlerKeeps d.env kept d.device_handler id
  run-keeps get_interval = get_polling_interval-HandlerKeeps d.env kept.ignores
  run-keeps (set_interval body) = set_polling_interval-HandlerKeeps d.env kept body
  run-keeps get_duplication = get_credential_duplication-HandlerKeeps d.env kept.ignores
  run-keeps (set_duplication body) = set_credential_duplication-HandlerKeeps d.env kept body
  run-keeps (list_traps query) = list_traps-HandlerKeeps d.env kept.ignores d.traps_handler query
  run-keeps (list_readable_traps query) =
      list_readable-HandlerKeeps d.env kept.ignores d.traps_handler d.decode_payload query
  run-keeps (discover_gateway ip) =
      (discover_gateway_device-Keeps d.env kept d.device_handler.key ip).after
  run-keeps (watcher_tick t) = on_tick-keeps d.env kept d.device_handler.key d.template d.influx t
  run-keeps (packet p source) = (handle_trap-Keeps p source).after
