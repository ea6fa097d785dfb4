-- ===== src/Examples/Witnesses.antt =====
-- Runs of the theorems at the example tables.
use mathlib.Core.List.{reverse}
use beacon_v.Prelude.{
  suc, take, map, ℕ, ◌≤◌, String, true, false, none, some, [], ◌∷◌, ◌++◌, ℤ, pos, ◌≡◌, ◌↔◌, refl,
  if◌then◌else◌, codes, parse_int,
}
use beacon_v.Exec.{ok, ◌>>=◌, or_fail}
use beacon_v.Exec.Ensures.{Post}
use beacon_v.Netutil.{is_private, parse_ip}
use beacon_v.Netutil.Ranges.{is_private-range, is_private_address}
use beacon_v.World.{str, Row, World}
use beacon_v.Crypto.{encrypt, decrypt}
use beacon_v.Crypto.RoundTrip.{decrypt-encrypt}
use beacon_v.Snmp.TrapNames.{lookup}
use beacon_v.Store.{find_id}
use beacon_v.Store.Devices.{bindable, inserted, with_status, updated, create, update, delete}
use beacon_v.Store.MapView.{row_at, same_id, create-row_at, update-row_at, delete-row_at}
use beacon_v.ConfigApi.{traps, write_json, polling_interval}
use beacon_v.ConfigApi.Devices.{create_valid}
use beacon_v.ConfigApi.Settings.{
  allowed_polling_interval, set_polling_interval, get_polling_interval,
}
use beacon_v.ConfigApi.Interval.{set-get_polling_interval}
use beacon_v.ConfigApi.Creation.{Created, AtMostOne, create_valid-Post}
use beacon_v.Watcher.Loop.{health}
use beacon_v.Watcher.Health.{check_device_health}
use beacon_v.Watcher.StatusOnly.{StatusOnly, check_device_health-StatusOnly}
use beacon_v.Watcher.Reconcile.{Reconciled, reconcile-Post}
use beacon_v.Watcher.Telegraf.{reconcile_telegraf_config}
use beacon_v.Watcher.Sweep.{run_discovery_sweep}
use beacon_v.Watcher.Sweep.Insertion.{Swept}
use beacon_v.Watcher.Sweep.Bounds.{duplication_enabled, run_discovery_sweep-Swept}
use beacon_v.TrapReceiver.Listed.{listed_trap, handle_trap-listed}
use beacon_v.ConfigApi.Traps
use beacon_v.ConfigApi.Traps.{TrapsHandler, limit_from_query}
use beacon_v.Store.Traps.{insert, trap_of, effective_limit}
use beacon_v.TrapReceiver.{encode_varbinds, handle_trap}
use beacon_v.TrapReceiver.Recorded.{Recorded}
use beacon_v.System.{run, create_device, set_interval, watcher_tick, Reach, here, later}
use beacon_v.System.Sound.{IsSound}
use beacon_v.System.Invariant.{Reach-IsSound}
use beacon_v.System.Statements
use beacon_v.System.Statements.{Steps, Steps-IsSound, Reach-Steps}
use beacon_v.ConfigApi.Missing.{update-of_missing}
use beacon_v.ConfigApi.Devices as ConfigDevices
use beacon_v.Examples.Cipher.{sample_key, sample_env, sample_key-Lawful, zeros, encode}
use beacon_v.Examples.Tables.{
  fresh, stocked, stocked-IsValid, stocked-IsSound, new_device, handler, new_request, link_down,
  deployment,
}

-- A request creates a device, another sets the interval, and the watcher checks all devices.
abbrev used : World
used = run deployment (watcher_tick health) (
    run deployment (set_interval (ok (pos 300)))
      (run deployment (create_device (ok new_request)) stocked))

used-Reach : Reach deployment stocked used
used-Reach =
    later (later (later here (create_device (ok new_request))) (set_interval (ok (pos 300))))
      (watcher_tick health)

Reach-IsSound_example : IsSound used
Reach-IsSound_example = Reach-IsSound deployment stocked used stocked-IsSound used-Reach

-- A device is created, another is deleted, and the deleted one is updated.
abbrev mixed : World
mixed = Statements.execute sample_env (Statements.update (pos 1) []) (
    Statements.execute sample_env (Statements.delete (pos 1))
      (Statements.execute sample_env (Statements.create new_device) stocked))

mixed-Steps : Steps sample_env stocked mixed
mixed-Steps =
    Statements.then_made
      (Statements.then_made
        (Statements.then_made Statements.none_made (Statements.create new_device))
        (Statements.delete (pos 1)))
      (Statements.update (pos 1) [])

Steps-IsSound_example : IsSound mixed
Steps-IsSound_example = Steps-IsSound sample_env stocked mixed stocked-IsSound mixed-Steps

Reach-Steps_example : Steps sample_env stocked used
Reach-Steps_example = Reach-Steps deployment stocked used used-Reach

update-of_missing_example :
    ((ConfigDevices.update sample_env handler "9"
        (ok (("hostname", str "core") ∷ []))
        stocked).0.status
      ≡ 404)
    × ((ConfigDevices.update sample_env handler "9"
          (ok (("hostname", str "core") ∷ []))
          stocked).1.devices
        ≡ stocked.devices)
unfolding parse_int lookup bindable ConfigDevices.plain_updates find_id
update-of_missing_example =
    update-of_missing sample_env handler "9" (pos 9) (("hostname", str "core") ∷ []) stocked refl
      (refl, refl, refl) refl refl (λ n. refl)

create_valid-Post_example :
    Post
      (Created sample_env handler new_request stocked)
      (AtMostOne stocked)
      (create_valid sample_env handler new_request stocked).0
      (create_valid sample_env handler new_request stocked).1
create_valid-Post_example =
    create_valid-Post sample_env handler sample_key-Lawful stocked stocked-IsValid new_request

abbrev new_id : ℕ
new_id = 2

create-row_at_example :
    (new_id ≡ stocked.next_id)
    × ((j : ℤ)
        → row_at j (create sample_env new_device stocked).1 ≡ (
            if same_id j (pos 2)
            then some (inserted (with_status new_device) 2 "2026-01-01 00:00:00")
            else row_at j stocked))
unfolding create or_fail
create-row_at_example = create-row_at sample_env stocked stocked-IsValid new_device 2 refl

update-row_at_example :
    (r : Row) × (row_at (pos 1) stocked ≡ some r)
    × ((j : ℤ)
        → row_at j (update sample_env (pos 1) (("hostname", str "core") ∷ []) stocked).1 ≡ (
            if same_id j (pos 1)
            then some (updated sample_env "2026-01-01 00:00:00" (("hostname", str "core") ∷ []) r)
            else row_at j stocked))
unfolding update or_fail
update-row_at_example =
    update-row_at sample_env stocked stocked-IsValid (pos 1) ("hostname", str "core") [] refl

delete-row_at_example :
    row_at (pos 1) (delete sample_env (pos 1) stocked).1
    ≡ (if same_id (pos 1) (pos 1) then none else row_at (pos 1) stocked)
unfolding delete or_fail
delete-row_at_example = delete-row_at sample_env stocked stocked-IsValid (pos 1) refl (pos 1)

abbrev plain : String
plain = "public"

abbrev sealed : String
sealed = encode (zeros 2 ++ codes "public")

decrypt-encrypt_example : (decrypt sample_key sealed ≡ ok "public") × ((sealed ≡ "") ↔ (plain ≡ ""))
unfolding encrypt or_fail ◌>>=◌
decrypt-encrypt_example =
    decrypt-encrypt sample_env sample_key sample_key-Lawful "public" sealed fresh refl

run_discovery_sweep-Swept_example :
    (n : ℕ) × (n ≤ 10)
    × Swept sample_env stocked
        (duplication_enabled stocked)
        n
        (run_discovery_sweep sample_env sample_key stocked).1
run_discovery_sweep-Swept_example = run_discovery_sweep-Swept sample_env sample_key stocked

is_private-range_example :
    is_private sample_env.v6_text "172.31.0.1"
    ≡ is_private_address (parse_ip sample_env.v6_text "172.31.0.1")
is_private-range_example = is_private-range sample_env.v6_text "172.31.0.1" tt

set-get_polling_interval_example :
    (allowed_polling_interval (pos 120) ≡ false
      → (set_polling_interval sample_env (ok (pos 120)) stocked).1 ≡ stocked)
    × (allowed_polling_interval (pos 120) ≡ true
        → ((set_polling_interval sample_env (ok (pos 120)) stocked).0
            ≡ write_json 200 (polling_interval (pos 120)))
          × ((get_polling_interval sample_env
                (set_polling_interval sample_env (ok (pos 120)) stocked).1).0
              ≡ write_json 200 (polling_interval (pos 120))))
set-get_polling_interval_example = set-get_polling_interval sample_env stocked (pos 120) refl refl

reconcile-Post_example :
    Post
      (λ _. Reconciled sample_env deployment.template stocked deployment.influx sample_key)
      (λ v. v.reloads ≡ 0)
      (reconcile_telegraf_config sample_env deployment.template deployment.influx sample_key
        stocked).0
      (reconcile_telegraf_config sample_env deployment.template deployment.influx sample_key
        stocked).1
reconcile-Post_example =
    reconcile-Post sample_env deployment.template deployment.influx sample_key stocked

check_device_health-StatusOnly_example :
    StatusOnly stocked (check_device_health sample_env sample_key stocked).1
check_device_health-StatusOnly_example =
    check_device_health-StatusOnly sample_env sample_key stocked

abbrev sample_traps : TrapsHandler
sample_traps = deployment.traps_handler

handle_trap-listed_example :
    (payload : String) × (encode_varbinds sample_env deployment.utf8_text deployment.hex_text
        deployment.marshal link_down.variables
      ≡ ok payload)
    × (n : ℕ) × (effective_limit (limit_from_query "5") ≡ suc n)
    × ((Traps.list sample_env sample_traps "5"
          (handle_trap sample_env deployment.utf8_text deployment.hex_text deployment.marshal
            link_down "10.0.0.1" stocked).1).0
        ≡ write_json 200 (
            traps (
              listed_trap sample_env sample_traps deployment.utf8_text deployment.hex_text
                deployment.marshal link_down "10.0.0.1" stocked payload
              ∷ map trap_of (take n (reverse stocked.traps)))))
unfolding handle_trap ◌>>=◌ insert or_fail
handle_trap-listed_example =
    handle_trap-listed sample_env sample_traps deployment.utf8_text deployment.hex_text
      deployment.marshal link_down "10.0.0.1" "5" stocked refl refl
