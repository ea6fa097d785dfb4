-- ===== src/Watcher/Sweep/Bounds.antt =====
-- What a whole sweep of config-watcher/discovery_sweep.go adds to the table.
use beacon_v.Prelude.{
  ℕ, ◌≤◌, String, Bool, false, some, List, [], ◌∷◌, ◌==◌, leb, ◌≡◌, refl, ap, sym, ◌∙◌, arith,
  append-nil,
}
use beacon_v.Exec.{Result, ok, err}
use beacon_v.Exec.Ensures.{
  Ensures, Post-both, Post-map, Post-same, Ensures-pure, Ensures-if, Ensures-bind,
  Ensures-attempted,
}
use beacon_v.World.{Error, World, Env}
use beacon_v.Crypto.{Key}
use beacon_v.Snmp.{Credentials}
use beacon_v.Snmp.Probing.{walk-keeps}
use beacon_v.Store.{Device}
use beacon_v.Store.Devices
use beacon_v.Store.Devices.{create, create_body, inserted, insert_row, with_status}
use beacon_v.Store.Settings
use beacon_v.Store.Preservation.{list_by_status-keeps}
use beacon_v.Snmp.TrapNames.{lookup, or_else}
use beacon_v.Watcher.{decrypt_credentials}
use beacon_v.Watcher.Sweep.{
  max_new_devices_per_sweep, sweep_hop, sweep_hops, sweep_walked, sweep_parent, sweep_parents,
  run_discovery_sweep,
}
use beacon_v.Watcher.Sweep.Insertion.{
  Swept, Never, counted_by, Now-ignores, insert-counts, consider-private,
}

module _ (env : Env) (key : Key) (start : World) (dup_enabled : Bool) where
  abbrev Now : ℕ → World → Type 0
  Now = Swept env start dup_enabled

  -- Below the cap, one round adds at most one row.
  counted_by-le :
      (n : ℕ) (inserted : Bool)
      → leb max_new_devices_per_sweep n ≡ false
      → counted_by n inserted ≤ max_new_devices_per_sweep
  counted_by-le n inserted h = ground arith

  -- The rows added never pass the cap.
  abbrev Within : ℕ → World → Type 0
  Within n w = (n ≤ max_new_devices_per_sweep) × Now n w

  hop-Within :
      (parent : Device) (creds : Credentials) (n : ℕ) (hop : String)
      → leb max_new_devices_per_sweep n ≡ false
      → Ensures (Within n) (sweep_hop env key parent creds dup_enabled n hop) Within Never
  unfolding sweep_hop
  hop-Within parent creds n hop below =
      Ensures-bind _ _ _
        (record {
          after = λ w h.
              (consider-private env key start dup_enabled n hop parent.ip_address).after w h.1;
        })
        λ wanted.
          Ensures-if wanted _ _
            (λ yes_wanted. record {
              after = λ w h.
                  (Ensures-bind _ _ _
                      (insert-counts env key start dup_enabled n hop creds (h.1 yes_wanted))
                      (λ inserted.
                        Ensures-pure (counted_by n inserted)
                          (λ v g. (counted_by-le n inserted below, g)))).after
                    w h.0;
            })
            (λ _. Ensures-pure n (λ w h. (counted_by-le n false below, h.0)))

  hops-Within :
      (parent : Device) (creds : Credentials) (hops : List String) (n : ℕ)
      → Ensures (Within n) (sweep_hops env key parent creds dup_enabled n hops) Within Never
  unfolding sweep_hops
  hops-Within parent creds [] n = Ensures-pure n (λ w h. h)
  hops-Within parent creds (hop ∷ hops) n =
      Ensures-if _ _ _ (λ _. Ensures-pure n (λ w h. h))
        λ below.
          Ensures-bind Within _ _ (hop-Within parent creds n hop below)
            (hops-Within parent creds hops)

  walked-Within :
      (parent : Device) (creds : Credentials) (n : ℕ) (r : Result Error (List String))
      → Ensures (Within n) (sweep_walked env key parent creds dup_enabled n r) Within Never
  walked-Within parent creds n (err _) = Ensures-pure n (λ w h. h)
  walked-Within parent creds n (ok hops) = hops-Within parent creds hops n

  parent-Within :
      (parent : Device) (n : ℕ) (r : Result Error Credentials)
      → Ensures (Within n) (sweep_parent env key parent dup_enabled n r) Within Never
  parent-Within parent n (err _) = Ensures-pure n (λ w h. h)
  parent-Within parent n (ok creds) =
      Ensures-bind (λ _. Within n) _ _
        (Ensures-attempted _
          (walk-keeps (λ w h. (h.0, Now-ignores env key start dup_enabled n w h.1)) env _ creds _))
        (walked-Within parent creds n)

  parents-Within :
      (parents : List Device) (n : ℕ)
      → Ensures (Within n) (sweep_parents env key dup_enabled n parents) Within Never
  unfolding sweep_parents
  parents-Within [] n = Ensures-pure n (λ w h. h)
  parents-Within (parent ∷ parents) n =
      Ensures-if (leb max_new_devices_per_sweep n) _ _ (λ _. Ensures-pure n (λ w h. h))
        λ _.
          Ensures-bind Within _ _ (parent-Within parent n (decrypt_credentials key parent))
            (parents-Within parents)

abbrev pub duplication_enabled : World → Bool
duplication_enabled w = or_else (lookup "credential_duplication_enabled" w.settings) "" == "1"

module _ (env : Env) (key : Key) (start : World) where
  abbrev Unchanged : World → Type 0
  Unchanged w = w.devices ≡ start.devices

  abbrev Read : String → World → Type 0
  Read v w = (lookup "credential_duplication_enabled" start.settings ≡ some v) × Unchanged w

  -- What a sweep may leave: at most the cap's number of discovered rows behind the old ones.
  Final : World → Type 0
  Final w =
      (n : ℕ) × (n ≤ max_new_devices_per_sweep) × Swept env start (duplication_enabled start) n w

  Unchanged-Final : (w : World) → Unchanged w → Final w
  unfolding Final
  Unchanged-Final w h = (
    0,
    omega arith,
    record {
      added = [];
      rows = h ∙ sym (append-nil start.devices);
      counted = refl;
      discovered = tt;
    },
  )

  setting-Read :
      Ensures (λ w. w ≡ start) (Settings.get env "credential_duplication_enabled") Read Final
  setting-Read = record {
    after = λ w e. rw e (
        Post-map Read Final _ _ (Settings.get env "credential_duplication_enabled" start).0
          (Settings.get env "credential_duplication_enabled" start).1
          (λ v h. (h.0, ap (λ x. x.devices) h.1)) (λ h. Unchanged-Final _ (ap (λ x. x.devices) h))
          (Settings.get-Post env "credential_duplication_enabled" start));
  }

  parents-Read :
      (v : String) → Ensures (Read v) (Devices.list_by_status env "active") (λ _. Read v) Final
  parents-Read v = record {
    after = λ w h.
        let run = Devices.list_by_status env "active" w in
        let after : Read v run.1 =
          (list_by_status-keeps {P = Read v} (λ _ g. g) env "active").after w h in
        Post-both (λ _. Read v) Final run.0 run.1 (λ _. after) (Unchanged-Final run.1 after.1);
  }

  loop-Final :
      (v : String) (parents : List Device)
      → Ensures (Read v) (sweep_parents env key (v == "1") 0 parents) (λ _. Final) Final
  unfolding Final
  loop-Final v parents = record {
    after = λ w h.
        let same : duplication_enabled start ≡ (v == "1") = rw h.0 in
        let none_yet : Swept env start (duplication_enabled start) 0 w = record {
          added = [];
          rows = h.1 ∙ sym (append-nil start.devices);
          counted = refl;
          discovered = tt;
        } in
        rw (← same) (
          let run = sweep_parents env key (duplication_enabled start) 0 parents w in
          Post-map (λ _. Final) Final (Within env key start (duplication_enabled start)) (λ _. ⊥)
            run.0 run.1 (λ n g. (n, g.0, g.1)) (λ g. absurd g)
            ((parents-Within env key start (duplication_enabled start) parents 0).after w
              (omega arith, none_yet)));
  }

  sweep-Final : Ensures (λ w. w ≡ start) (run_discovery_sweep env key) (λ _. Final) Final
  unfolding run_discovery_sweep
  sweep-Final =
      Ensures-bind Read _ _ setting-Read
        (λ v. Ensures-bind (λ _. Read v) _ _ (parents-Read v) (loop-Final v))

  -- A sweep leaves the old rows as they are, whatever fails on the way, and puts at most ten new ones
  -- behind them: each has a private address that was not in the table, no v3 keys, and, unless
  -- credential duplication is enabled, no version, no community and the status "pending".
  pub run_discovery_sweep-Swept :
      (n : ℕ) × (n ≤ 10)
      × Swept env start (duplication_enabled start) n (run_discovery_sweep env key start).1
  unfolding Final
  run_discovery_sweep-Swept =
      Post-same Final (run_discovery_sweep env key start).0 _ (sweep-Final.after start refl)
