-- ===== src/ConfigApi/Others.antt =====
-- config-api/handlers/devices.go: what PATCH and DELETE of /devices/{id} leave alone.
use mathlib.Core.Path.{subst}
use beacon_v.Prelude.{
  String, false, Option, none, some, List, ℤ, ◌≡◌, refl, ◌∙◌, Bool-cases, inl, inr, parse_int,
  if-holds,
}
use beacon_v.Exec.{Result}
use beacon_v.Exec.Keeps.{Keeps}
use beacon_v.World.{Error, Json, Row, World, Env}
use beacon_v.World.Ticks.{IgnoresTicks}
use beacon_v.Store.{find_id, checked}
use beacon_v.Store.Devices as StoreDevices
use beacon_v.Store.Devices.{
  bindable, replace, updated, update_found, update_body, delete_found, delete_body,
}
use beacon_v.Store.Preservation.{update-keeps, delete-keeps, IsValid-ignores}
use beacon_v.Store.Validity.{IsValid, updated-Kept}
use beacon_v.Store.Validity.Statements.{update_found-IsValid, delete_found-IsValid}
use beacon_v.Store.MapView.{same_id, row_at, find_id-replace, find_id-remove}
use beacon_v.ConfigApi.Devices
use beacon_v.ConfigApi.Devices.{DeviceHandler}
use beacon_v.ConfigApi.Preservation.{update-HandlerKeeps_by, delete-HandlerKeeps_by}

-- All rows but the one with this id, the settings and the traps are as before; the table is valid.
pub record OthersKept (id : ℤ) (w v : World) : Type 0 where
  pub valid : IsValid v
  pub rows : (j : ℤ) → same_id j id ≡ false → row_at j v ≡ row_at j w
  pub settings : v.settings ≡ w.settings
  pub traps : v.traps ≡ w.traps

module _ (env : Env) (id : ℤ) (w : World) where
  Kept-ignores : IgnoresTicks (OthersKept id w)
  Kept-ignores v k = record {
    valid = IsValid-ignores v k.valid;
    rows = k.rows;
    settings = k.settings;
    traps = k.traps;
  }

  update_found-Kept :
      (us : List (String × Json)) (now : String) (o : Option Row) (v : World)
      → find_id id v.devices ≡ o
      → OthersKept id w v
      → OthersKept id w (update_found env id us now o v).1
  update_found-Kept us now none v e k = k
  update_found-Kept us now (some r) v e k = elim (Bool-cases (checked (updated env now us r))) [
    | inr bad ↦ rw bad k
    | inl good ↦
        let new = updated env now us r in
        let valid' : IsValid (record v { devices = replace id new v.devices }) =
          rw (e, good) at (update_found-IsValid env id us now v k.valid) in
        let others : (j : ℤ)
            → same_id j id ≡ false
            → find_id j (replace id new v.devices) ≡ row_at j w =
          λ j other.
            find_id-replace id j new r v.devices e (updated-Kept env now us r).0
            ∙ (rw other (k.rows j other)) in
        rw good (record { valid = valid'; rows = others; settings = k.settings; traps = k.traps })
  ]

  delete_found-Kept :
      (o : Option Row) (v : World)
      → find_id id v.devices ≡ o
      → OthersKept id w v
      → OthersKept id w (delete_found id o v).1
  delete_found-Kept none v e k = k
  delete_found-Kept (some r) v e k = record {
    valid = delete_found-IsValid id (some r) v k.valid;
    rows = λ j other.
        find_id-remove id j 1 v.devices v.next_id k.valid.ordered ∙ (rw other (k.rows j other));
    settings = k.settings;
    traps = k.traps;
  }

  update-OthersKept :
      (us : List (String × Json)) → Keeps (OthersKept id w) (StoreDevices.update env id us)
  update-OthersKept us = update-keeps Kept-ignores env id us λ now. record {
    after = λ v k.
        if-holds (λ (r : Result Error (Unit {0}) × World). OthersKept id w r.1) (bindable us) _ _
          (update_found-Kept us now (find_id id v.devices) v refl k) k;
  }

  delete-OthersKept : Keeps (OthersKept id w) (StoreDevices.delete env id)
  delete-OthersKept =
      delete-keeps Kept-ignores env id
        (record { after = λ v. delete_found-Kept (find_id id v.devices) v refl })

same_parsed :
    (path : String) {id other : ℤ}
    → parse_int path ≡ some id
    → parse_int path ≡ some other
    → id ≡ other
same_parsed path e f = cc

-- On a valid table, PATCH and DELETE of /devices/{id}, with any body, whatever they answer and whatever
-- fails on the way, leave every row but the one with this id, the settings and the traps as they were.
pub one_device-OthersKept :
    (env : Env) (h : DeviceHandler) (path : String) (id : ℤ) (w : World)
    (body : Result Error (List (String × Json)))
    → IsValid w
    → parse_int path ≡ some id
    → OthersKept id w (Devices.update env h path body w).1
      × OthersKept id w (Devices.delete env h path w).1
one_device-OthersKept env h path id w body valid parsed =
    let start : OthersKept id w w = record {
      valid = valid;
      rows = λ j other. refl;
      settings = refl;
      traps = refl;
    } in
    (
      update-HandlerKeeps_by env (Kept-ignores env id w) h path body
          (λ other e us.
            subst (λ x. Keeps (OthersKept id w) (StoreDevices.update env x us))
              (same_parsed path parsed e) (update-OthersKept env id w us))
          w start,
      delete-HandlerKeeps_by env (Kept-ignores env id w) h path
          (λ other e.
            subst (λ x. Keeps (OthersKept id w) (StoreDevices.delete env x))
              (same_parsed path parsed e) (delete-OthersKept env id w))
          w start,
    )
