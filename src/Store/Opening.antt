-- ===== src/Store/Opening.antt =====
-- internal/store/schema.go: OpenConfigDB and OpenTrapsDB. A table that does not exist yet has no rows;
-- CREATE TABLE IF NOT EXISTS leaves the rows of one that exists. The columns that ALTER TABLE adds to
-- an old table are NULL in its rows, and the error about a column that is there already, which the
-- code ignores, is no fault here. The script of one Exec is one step.
use beacon_v.Prelude.{String, Option, none, some, List, ◌++◌, [], ◌∷◌}
use beacon_v.Exec.{ok, ◌>>◌, or_fail}
use beacon_v.World.{wrap, Env, Go}
use beacon_v.Snmp.TrapNames.{lookup}
use beacon_v.Store.{statement}

-- INSERT OR IGNORE of a setting.
abbrev kept_or_added :
    Option String → String → String → List (String × String) → List (String × String)
kept_or_added none key value settings = settings ++ (key, value) ∷ []
kept_or_added (some _) key value settings = settings

unfoldable pub insert_or_ignore : String → String → List (String × String) → List (String × String)
unfolding lookup
insert_or_ignore key value settings = kept_or_added (lookup key settings) key value settings

unfoldable pub default_settings : List (String × String) → List (String × String)
unfolding insert_or_ignore
default_settings settings =
    insert_or_ignore "credential_duplication_enabled" "0"
      (insert_or_ignore "polling_interval_seconds" "60" settings)

unfoldable pub apply_config_schema : Go (Unit {0})
unfolding default_settings
apply_config_schema w = (ok tt, record w { settings = default_settings w.settings })

module _ (env : Env) where
  unfoldable pub open_config_db : Go (Unit {0})
  unfolding apply_config_schema statement
  open_config_db =
      or_fail (wrap "store: applying config schema") (statement env apply_config_schema)

  abbrev script : Go (Unit {0})
  script = statement env (λ w. (ok tt, w))

  -- The schema, and a statement for each of the two columns that older tables lack.
  unfoldable pub open_traps_db : Go (Unit {0})
  open_traps_db = do
    or_fail (wrap "store: applying traps schema") script
    or_fail (wrap "store: migrating traps schema") script
    or_fail (wrap "store: migrating traps schema") script

  -- config-api opens both, in this order.
  unfoldable pub open_databases : Go (Unit {0})
  unfolding open_config_db open_traps_db
  open_databases = do open_config_db; open_traps_db
