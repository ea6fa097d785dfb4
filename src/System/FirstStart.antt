-- ===== src/System/FirstStart.antt =====
-- internal/store/schema.go with all services: what holds from the first start on.
use beacon_v.Prelude.{
  ℕ, String, false, Option, some, List, [], pos, if◌then◌else◌, ◌⊎◌, suc, Option-cases, inl, inr,
  ◌≡◌, refl, arith, itoa,
}
use beacon_v.Exec.{ok, err, ◌>>=◌, or_fail}
use beacon_v.Exec.Keeps.{Keeps, keeps_rules}
use beacon_v.World.{World, Error, Env, tick, wrap}
use beacon_v.Snmp.TrapNames.{lookup}
use beacon_v.Store.{statement}
use beacon_v.Store.Opening.{
  insert_or_ignore, default_settings, apply_config_schema, open_config_db, open_traps_db,
  open_databases,
}
use beacon_v.Store.Preservation.{Keeps-read}
use beacon_v.ConfigApi.Settings.{
  polling_interval_key, credential_duplication_key, allowed_polling_interval, int_text,
}
use beacon_v.System.{Deployment, Reach}
use beacon_v.System.Sound.{IsSound, stable}
use beacon_v.System.Invariant.{Reach-IsSound}

-- Two database files without tables.
abbrev pub new_files : Option String → ℕ → ℕ → World
new_files conf reloads ticks = record {
  devices = [];
  next_id = 1;
  settings = [];
  traps = [];
  next_trap = 1;
  conf = conf;
  reloads = reloads;
  ticks = ticks;
}

-- What a start may find: no tables yet, or those of an earlier run.
pub data Files : World → Type 0 where
  new : (conf : Option String) (reloads ticks : ℕ) → Files (new_files conf reloads ticks)
  used : {w : World} → IsSound w → Files w

-- The defaults leave settings that are there alone.
kept-setting :
    (key value v : String) (settings : List (String × String))
    → lookup key settings ≡ some v
    → insert_or_ignore key value settings ≡ settings
unfolding insert_or_ignore
kept-setting key value v settings h = rw h refl

defaults-kept : (w : World) → IsSound w → default_settings w.settings ≡ w.settings
unfolding default_settings
defaults-kept w h =
    let (n, allowed, stored) = h.interval in
    let (b, flag) = h.duplication in
    let first = kept-setting polling_interval_key "60" (int_text n) w.settings stored in
    let second =
      kept-setting credential_duplication_key "0" (if b then "1" else "0") w.settings flag in
    rw (first, second) refl

used-IsSound : (w : World) → IsSound w → IsSound (apply_config_schema w).1
unfolding apply_config_schema
used-IsSound w h = rw (defaults-kept w h) h

schema-IsSound : (w : World) → Files w → IsSound (apply_config_schema w).1
unfolding apply_config_schema default_settings insert_or_ignore lookup allowed_polling_interval itoa
schema-IsSound _ (new conf reloads ticks) = record {
  tables = record { ordered = omega arith; distinct = tt; constrained = tt };
  interval = (pos 60, refl, refl);
  duplication = (false, refl);
  traps_ordered = omega arith;
}
schema-IsSound w (used h) = used-IsSound w h

module _ (env : Env) where
  Files-ignores : (w : World) → Files w → Files (tick w)
  Files-ignores _ (new conf reloads ticks) = new conf reloads (suc ticks)
  Files-ignores w (used h) = used ((stable env).ignores w h)

  script-Keeps : Keeps IsSound (statement env (λ w. (ok tt, w)))
  script-Keeps = Keeps-read (stable env).ignores env (λ _. ok tt)

  open_traps_db-Keeps : Keeps IsSound (open_traps_db env)
  unfolding open_traps_db
  open_traps_db-Keeps = search (keeps_rules, script-Keeps)

  -- The script fails, or leaves sound tables.
  config-opened :
      (w : World)
      → Files w
      → ((e : Error) × ((open_config_db env w).0 ≡ err e))
        ⊎ (((open_config_db env w).0 ≡ ok tt) × IsSound (open_config_db env w).1)
  unfolding open_config_db or_fail statement
  config-opened w files = elim (Option-cases (env.fault w.ticks)) [
    | inr (e, failed) ↦ inl (wrap "store: applying config schema" e, rw (failed, statement) refl)
    | inl works ↦ inr (
      rw (works, statement, apply_config_schema) refl,
      rw (works, statement) (schema-IsSound (tick w) (Files-ignores w files)),
    )
  ]

  opened-IsSound :
      (w : World) → Files w → (open_databases env w).0 ≡ ok tt → IsSound (open_databases env w).1
  unfolding open_databases ◌>>=◌
  opened-IsSound w files opened = elim (config-opened w files) [
    | inl (e, failed) ↦ absurd (let bad : err e ≡ ok tt = rw failed at opened in cc)
    | inr (ran, sound) ↦ rw ran (open_traps_db-Keeps.after _ sound)
  ]

-- From the first start on, or from a later one on sound tables, if the databases could be opened:
-- whatever requests, ticks and packets the services handle, their tables are sound.
pub started-IsSound :
    (d : Deployment) (files w : World)
    → Files files
    → (open_databases d.env files).0 ≡ ok tt
    → Reach d (open_databases d.env files).1 w
    → IsSound w
started-IsSound d files w found opened reached =
    Reach-IsSound d _ w (opened-IsSound d.env files found opened) reached
