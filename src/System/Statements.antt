-- ===== src/System/Statements.antt =====
-- The single statements and writes of the services, in any order.
use beacon_v.Prelude.{String, Bool, true, some, suc, List, ℤ, ◌≡◌, if◌then◌else◌}
use beacon_v.World.{Json, World, Env, tick}
use beacon_v.Store.{Device}
use beacon_v.Store.Devices
use beacon_v.Store.Settings
use beacon_v.Store.Traps
use beacon_v.Store.Traps.{Trap}
use beacon_v.ConfigApi.Settings.{
  polling_interval_key, credential_duplication_key, allowed_polling_interval, int_text,
}
use beacon_v.System.{Deployment, Reach, here, later}
use beacon_v.System.Stable.{Stable}
use beacon_v.System.Sound.{IsSound, stable}
use beacon_v.System.Preservation.{run-keeps}

-- What the database, the file system and docker do at once. `call` is a read, or a call that fails.
-- The polling interval is only ever set to one that passed the check of its handler.
pub data Statement : Type 0 where
  call : Statement
  create : Device → Statement
  update : ℤ → List (String × Json) → Statement
  delete : ℤ → Statement
  record_trap : Trap → Statement
  set_interval : (n : ℤ) → allowed_polling_interval n ≡ true → Statement
  set_duplication : Bool → Statement
  write_conf : String → Statement
  reload : Statement

module _ (env : Env) where
  unfoldable pub execute : Statement → World → World
  execute call w = tick w
  execute (create d) w = (Devices.create env d w).1
  execute (update id us) w = (Devices.update env id us w).1
  execute (delete id) w = (Devices.delete env id w).1
  execute (record_trap t) w = (Traps.insert env t w).1
  execute (set_interval n _) w = (Settings.set env polling_interval_key (int_text n) w).1
  execute (set_duplication b) w =
      (Settings.set env credential_duplication_key (if b then "1" else "0") w).1
  execute (write_conf text) w = record w { conf = some text }
  execute reload w = record w { reloads = suc w.reloads }

  -- The worlds that a sequence of statements leads to, whoever makes them.
  pub data Steps (start : World) : World → Type 0 where
    none_made : Steps start start
    then_made : {w : World} → Steps start w → (s : Statement) → Steps start (execute s w)

  Steps-Stable : (start : World) → Stable env (Steps start)
  unfolding execute
  Steps-Stable start = record {
    ignores = λ w h. then_made h call;
    creates = λ d. record { after = λ w h. then_made h (create d) };
    updates = λ id us. record { after = λ w h. then_made h (update id us) };
    deletes = λ id. record { after = λ w h. then_made h (delete id) };
    records_trap = λ t. record { after = λ w h. then_made h (record_trap t) };
    sets_interval = λ n ok'. record { after = λ w h. then_made h (set_interval n ok') };
    sets_duplication = λ b. record { after = λ w h. then_made h (set_duplication b) };
    writes_conf = λ text w h. then_made h (write_conf text);
    reloads_once = λ w h. then_made h reload;
  }

  module _ {P : World → Type 0} (kept : Stable env P) where
    execute-keeps : (s : Statement) (w : World) → P w → P (execute s w)
    unfolding execute
    execute-keeps call w h = kept.ignores w h
    execute-keeps (create d) w h = (kept.creates d).after w h
    execute-keeps (update id us) w h = (kept.updates id us).after w h
    execute-keeps (delete id) w h = (kept.deletes id).after w h
    execute-keeps (record_trap t) w h = (kept.records_trap t).after w h
    execute-keeps (set_interval n allowed) w h = (kept.sets_interval n allowed).after w h
    execute-keeps (set_duplication b) w h = (kept.sets_duplication b).after w h
    execute-keeps (write_conf text) w h = kept.writes_conf text w h
    execute-keeps reload w h = kept.reloads_once w h

  -- From a sound start, any sequence of single statements leaves a sound world, whatever their order
  -- and failures: reads, INSERT, UPDATE and DELETE of any device, traps, writes of telegraf.conf,
  -- reloads, and settings, where the polling interval is set to allowed values only.
  pub Steps-IsSound : (start w : World) → IsSound start → Steps start w → IsSound w
  Steps-IsSound start w h none_made = h
  Steps-IsSound start _ h (then_made r s) =
      execute-keeps (stable env) s _ (Steps-IsSound start _ h r)

-- Every world that requests, rounds of the watcher and packets lead to is one that single statements
-- lead to: each action is a sequence of them.
pub Reach-Steps : (d : Deployment) (start w : World) → Reach d start w → Steps d.env start w
Reach-Steps d start w here = none_made
Reach-Steps d start _ (later r a) =
    run-keeps d (Steps-Stable d.env start) a _ (Reach-Steps d start _ r)
