-- ===== src/Snmp/Probing.antt =====
-- What the reads of internal/snmp do to the world, and what probes try and return.
use beacon_v.Prelude.{ℕ, String, Option, List, [], ◌∷◌}
use beacon_v.Exec.{Result, ok, err}
use beacon_v.Exec.Keeps.{Keeps, Keeps-bind, Keeps-attempt, keeps_rules}
use beacon_v.World.{Go, Error, SnmpVersion, Client, World, Env, call}
use beacon_v.World.Ticks.{IgnoresTicks, call-keeps}
use beacon_v.Snmp.{
  Credentials, verify, probed, probe_list, probe_defaults, walk_call, walk_route_next_hops,
}

module _ {P : World → Type 0} (ignores : IgnoresTicks P) (env : Env) where
  calls : (answer : ℕ → Option Error) → Keeps P (call answer)
  calls = call-keeps ignores

  -- A read changes nothing but the count of calls.
  pub verify-keeps :
      (ip : String) (creds : Credentials) (timeout : ℕ) → Keeps P (verify env ip creds timeout)
  unfolding verify
  verify-keeps ip creds timeout = search (keeps_rules, calls)

  walk_call-keeps : (client : Client) (oid : String) → Keeps P (walk_call env client oid)
  unfolding walk_call
  walk_call-keeps client oid = record { after = λ w h. ignores w h }

  pub walk-keeps :
      (ip : String) (creds : Credentials) (timeout : ℕ)
      → Keeps P (walk_route_next_hops env ip creds timeout)
  unfolding walk_route_next_hops
  walk-keeps ip creds timeout = search (keeps_rules, calls, walk_call-keeps)

  probed-keeps :
      (creds : Credentials) (next : Go Credentials) (r : Result Error (Unit {0}))
      → Keeps P next
      → Keeps P (probed creds next r)
  probed-keeps creds next (ok _) h = search keeps_rules
  probed-keeps creds next (err _) h = h

  probe_list-keeps :
      (ds : List (SnmpVersion × String)) (ip : String) (timeout : ℕ)
      → Keeps P (probe_list env ds ip timeout)
  unfolding probe_list
  probe_list-keeps [] ip timeout = search keeps_rules
  probe_list-keeps (d ∷ ds) ip timeout =
      Keeps-bind _ _ (Keeps-attempt _ (verify-keeps ip _ timeout))
        (λ r. probed-keeps _ _ r (probe_list-keeps ds ip timeout))

  pub probe_defaults-keeps : (ip : String) (timeout : ℕ) → Keeps P (probe_defaults env ip timeout)
  unfolding probe_defaults
  probe_defaults-keeps = probe_list-keeps _
