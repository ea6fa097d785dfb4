-- ===== src/System/Sound.antt =====
-- Sound tables, and that every write of the services keeps them sound.
use beacon_v.Prelude.{
  ℕ, suc, ◌≤◌, String, Bool, true, Option, Option-cases, none, some, List, [], ◌∷◌, ◌++◌, ℤ,
  if◌then◌else◌, Bool-cases, inl, inr, ◌≡◌, refl, ◌∙◌, arith, if-holds,
}
use beacon_v.Exec.{Result}
use beacon_v.Exec.Keeps.{Keeps, Keeps-or_fail}
use beacon_v.World.{Error, Json, Row, TrapRow, World, Env, tick}
use beacon_v.Snmp.TrapNames.{lookup}
use beacon_v.Store.{Device, find_id, find_ip, checked}
use beacon_v.Store.Devices
use beacon_v.Store.Devices.{
  insert_row, create_body, write_row, update_found, update_body, delete_found, delete_body,
  bindable, updated,
}
use beacon_v.Store.Settings
use beacon_v.Store.Settings.{set_body, upsert, lookup-upsert}
use beacon_v.Store.Traps
use beacon_v.Store.Traps.{Trap, insert_body, trap_row}
use beacon_v.Store.Validity.{IsValid}
use beacon_v.Store.Preservation.{
  statement-after, IsValid-ignores, timed-keeps, create-keeps, update-keeps, delete-keeps,
  create-IsValid, update-IsValid, delete-IsValid,
}
use beacon_v.ConfigApi.Settings.{
  polling_interval_key, credential_duplication_key, allowed_polling_interval, int_text,
}
use beacon_v.System.Stable.{Stable}

-- The ids of the traps ascend strictly.
abbrev pub TrapsOrdered : ℕ → List TrapRow → ℕ → Type 0
TrapsOrdered lo [] hi = lo ≤ hi
TrapsOrdered lo (t ∷ ts) hi = (lo ≤ t.id) × TrapsOrdered (suc t.id) ts hi

-- The devices are valid, the settings have a value that the handlers allow, and traps keep their order.
pub record IsSound (w : World) : Type 0 where
  pub tables : IsValid w
  pub interval :
      (n : ℤ) × (allowed_polling_interval n ≡ true)
      × (lookup polling_interval_key w.settings ≡ some (int_text n))
  pub duplication :
      (b : Bool) × (lookup credential_duplication_key w.settings ≡ some (if b then "1" else "0"))
  pub traps_ordered : TrapsOrdered 1 w.traps w.next_trap

TrapsOrdered-append :
    (lo : ℕ) (ts : List TrapRow) (hi : ℕ) (t : TrapRow)
    → t.id ≡ hi
    → TrapsOrdered lo ts hi
    → TrapsOrdered lo (ts ++ t ∷ []) (suc hi)
TrapsOrdered-append lo [] hi t e h = (omega arith, omega arith)
TrapsOrdered-append lo (q ∷ ts) hi t e h = (h.0, TrapsOrdered-append (suc q.id) ts hi t e h.1)

-- What operations on devices leave alone.
abbrev Apart : World → World → Type 0
Apart u v = (v.settings ≡ u.settings) × (v.traps ≡ u.traps) × (v.next_trap ≡ u.next_trap)

module _ (env : Env) (u : World) where
  insert_row-Apart : (r : Row) (w : World) → Apart u w → Apart u (insert_row r w).1
  unfolding insert_row
  insert_row-Apart r w h = elim (Option-cases (find_ip r.ip_address w.devices)) [
    | inr (q, found) ↦ rw found h
    | inl missing ↦ elim (Bool-cases (checked r)) [
      | inr bad ↦ rw (missing, bad) h
      | inl good ↦ rw (missing, good) h
    ]
  ]

  update_found-Apart :
      (id : ℤ) (us : List (String × Json)) (now : String) (o : Option Row) (w : World)
      → Apart u w
      → Apart u (update_found env id us now o w).1
  update_found-Apart id us now none w h = h
  update_found-Apart id us now (some r) w h =
      if-holds (λ (x : Result Error (Unit {0}) × World). Apart u x.1)
        (checked (updated env now us r)) _ _ h h

  delete_found-Apart :
      (id : ℤ) (o : Option Row) (w : World) → Apart u w → Apart u (delete_found id o w).1
  delete_found-Apart id none w h = h
  delete_found-Apart id (some r) w h = h

  create-Apart : (d : Device) → Keeps (Apart u) (Devices.create env d)
  create-Apart d =
      create-keeps (λ w h. h) env d (λ now. record { after = λ w. insert_row-Apart _ w })

  update-Apart : (id : ℤ) (us : List (String × Json)) → Keeps (Apart u) (Devices.update env id us)
  update-Apart id us =
      update-keeps (λ w h. h) env id us
        λ now. record {
          after = λ w h.
              if-holds (λ (x : Result Error (Unit {0}) × World). Apart u x.1) (bindable us) _ _
                (update_found-Apart id us now (find_id id w.devices) w h) h;
        }

  delete-Apart : (id : ℤ) → Keeps (Apart u) (Devices.delete env id)
  delete-Apart id =
      delete-keeps (λ w h. h) env id
        (record { after = λ w. delete_found-Apart id (find_id id w.devices) w })

same_devices :
    (u v : World) → IsValid u → (v.devices ≡ u.devices) × (v.next_id ≡ u.next_id) → IsValid v
same_devices u v h (rows, next) = record {
  ordered = rw (rows, next) h.ordered;
  distinct = rw rows h.distinct;
  constrained = rw rows h.constrained;
}

IsSound-moved : (u v : World) → IsSound u → IsValid v → Apart u v → IsSound v
IsSound-moved u v h valid (settings, traps, next) = record {
  tables = valid;
  interval = rw settings h.interval;
  duplication = rw settings h.duplication;
  traps_ordered = rw (traps, next) h.traps_ordered;
}

IsSound-tick : (w : World) → IsSound w → IsSound (tick w)
IsSound-tick w h = IsSound-moved w (tick w) h (IsValid-ignores w h.tables) (refl, refl, refl)

module _ (env : Env) where
  sets_interval :
      (n : ℤ)
      → allowed_polling_interval n ≡ true
      → Keeps IsSound (Settings.set env polling_interval_key (int_text n))
  unfolding Settings.set set_body
  sets_interval n ok_n = Keeps-or_fail _ _ (record {
    after = λ w.
        statement-after IsSound-tick env (set_body polling_interval_key (int_text n)) w λ h.
          record {
            tables = same_devices (tick w) _ h.tables (refl, refl);
            interval = (
              n,
              ok_n,
              lookup-upsert polling_interval_key polling_interval_key (int_text n) w.settings,
            );
            duplication = (
              h.duplication.0,
              lookup-upsert polling_interval_key credential_duplication_key (int_text n) w.settings
                  ∙ h.duplication.1,
            );
            traps_ordered = h.traps_ordered;
          };
  })

  sets_duplication :
      (b : Bool)
      → Keeps IsSound (Settings.set env credential_duplication_key (if b then "1" else "0"))
  unfolding Settings.set set_body
  sets_duplication b =
      let value : String = if b then "1" else "0" in
      Keeps-or_fail _ _ (record {
        after = λ w.
            statement-after IsSound-tick env (set_body credential_duplication_key value) w λ h.
              record {
                tables = same_devices (tick w) _ h.tables (refl, refl);
                interval = (
                  h.interval.0,
                  h.interval.1,
                  lookup-upsert credential_duplication_key polling_interval_key value w.settings
                      ∙ h.interval.2,
                );
                duplication = (
                  b,
                  lookup-upsert credential_duplication_key credential_duplication_key value
                      w.settings,
                );
                traps_ordered = h.traps_ordered;
              };
      })

  records_trap : (t : Trap) → Keeps IsSound (Traps.insert env t)
  unfolding Traps.insert
  records_trap t = Keeps-or_fail _ _ (
      timed-keeps IsSound-tick env (insert_body t) λ now. record {
        after = λ w h. record {
          tables = same_devices w _ h.tables (refl, refl);
          interval = h.interval;
          duplication = h.duplication;
          traps_ordered =
              TrapsOrdered-append 1 w.traps w.next_trap (trap_row t w.next_trap now) refl
                h.traps_ordered;
        };
      })

  pub stable : Stable env IsSound
  stable = record {
    ignores = IsSound-tick;
    creates = λ d. record {
      after = λ w h.
          IsSound-moved w _ h ((create-IsValid env d).after w h.tables)
            ((create-Apart env w d).after w (refl, refl, refl));
    };
    updates = λ id us. record {
      after = λ w h.
          IsSound-moved w _ h ((update-IsValid env id us).after w h.tables)
            ((update-Apart env w id us).after w (refl, refl, refl));
    };
    deletes = λ id. record {
      after = λ w h.
          IsSound-moved w _ h ((delete-IsValid env id).after w h.tables)
            ((delete-Apart env w id).after w (refl, refl, refl));
    };
    records_trap = records_trap;
    sets_interval = sets_interval;
    sets_duplication = sets_duplication;
    writes_conf =
        λ text w h. IsSound-moved w _ h (same_devices w _ h.tables (refl, refl)) (refl, refl, refl);
    reloads_once =
        λ w h. IsSound-moved w _ h (same_devices w _ h.tables (refl, refl)) (refl, refl, refl);
  }
