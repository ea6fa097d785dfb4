-- ===== src/Watcher/StatusOnly.antt =====
-- The health check of config-watcher/healthcheck.go writes the status of a device, and nothing else.
use beacon_v.Prelude.{
  String, Option, none, some, List, [], ◌∷◌, map, ℤ, ◌≡◌, refl, ap, ◌∙◌, Bool-cases, inl, inr,
  if-holds,
}
use beacon_v.Exec.{Result, ok, err}
use beacon_v.Exec.Keeps.{Keeps, Keeps-bind, Keeps-pure, Keeps-for_each, keeps_rules}
use beacon_v.World.{Error, str, Row, World, Env}
use beacon_v.World.Ticks.{IgnoresTicks}
use beacon_v.Crypto.{Key}
use beacon_v.Snmp.{Credentials}
use beacon_v.Snmp.Probing.{verify-keeps}
use beacon_v.Store.{Device, find_id, has_id, checked}
use beacon_v.Store.Devices
use beacon_v.Store.Devices.{replace, updated, update_found, update_body, bindable}
use beacon_v.Store.Preservation.{list-keeps, update-keeps}
use beacon_v.Store.Validity.{found_here}
use beacon_v.Watcher.Health.{check_with, check_device, check_device_health}

-- A row without its status and the time of its last change.
abbrev pub erased : Row → Row
erased r = record r { status = none; updated_at = "" }

map-replace :
    (id : ℤ) (new r : Row) (rs : List Row)
    → find_id id rs ≡ some r
    → erased new ≡ erased r
    → map erased (replace id new rs) ≡ map erased rs
unfolding find_id replace
map-replace id new r [] f e = refl
map-replace id new r (q ∷ rs) f e = elim (Bool-cases (has_id id q)) [
  | inl t ↦
      let here : r ≡ q = found_here id q r rs t f in
      rw t (ap (λ x. x ∷ map erased rs) (e ∙ ap erased here))
  | inr u ↦ rw u (ap (λ xs. erased q ∷ xs) (map-replace id new r rs (rw u at f) e))
]

-- Everything but statuses and times is as in `start`.
pub record StatusOnly (start w : World) : Type 0 where
  pub rows : map erased w.devices ≡ map erased start.devices
  pub next_id : w.next_id ≡ start.next_id
  pub settings : w.settings ≡ start.settings
  pub traps : w.traps ≡ start.traps
  pub conf : w.conf ≡ start.conf

module _ (env : Env) (key : Key) (start : World) where
  Only : World → Type 0
  Only = StatusOnly start

  ignores : IgnoresTicks Only
  unfolding Only
  ignores w h = record {
    rows = h.rows;
    next_id = h.next_id;
    settings = h.settings;
    traps = h.traps;
    conf = h.conf;
  }

  update_found-Only :
      (id : ℤ) (now status : String) (o : Option Row) (w : World)
      → find_id id w.devices ≡ o
      → Only w
      → Only (update_found env id (("status", str status) ∷ []) now o w).1
  unfolding Only updated
  update_found-Only id now status none w found h = h
  update_found-Only id now status (some r) w found h =
      let new = updated env now (("status", str status) ∷ []) r in
      if-holds (λ (x : Result Error (Unit {0}) × World). StatusOnly start x.1) (checked new) _ _
        (record {
          rows = map-replace id new r w.devices found refl ∙ h.rows;
          next_id = h.next_id;
          settings = h.settings;
          traps = h.traps;
          conf = h.conf;
        })
        h

  set_status-Only :
      (id : ℤ) (status : String) → Keeps Only (Devices.update env id (("status", str status) ∷ []))
  unfolding Only
  set_status-Only id status = update-keeps ignores env id (("status", str status) ∷ []) λ now.
      record {
        after = λ w h.
            if-holds (λ (x : Result Error (Unit {0}) × World). StatusOnly start x.1)
              (bindable (("status", str status) ∷ [])) _ _
              (update_found-Only id now status (find_id id w.devices) w refl h) h;
      }

  check_with-Only :
      (d : Device) (r : Result Error Credentials) → Keeps Only (check_with env key d r)
  check_with-Only d (err e) = Keeps-pure tt
  check_with-Only d (ok creds) =
      search (keeps_rules, verify-keeps ignores env, set_status-Only) depth 9

  check_device-Only : (d : Device) → Keeps Only (check_device env key d)
  unfolding check_device
  check_device-Only d = search (keeps_rules, check_with-Only)

  check_device_health-Only : Keeps Only (check_device_health env key)
  unfolding check_device_health
  check_device_health-Only =
      Keeps-bind _ _ (list-keeps ignores env) (λ all. Keeps-for_each all _ check_device-Only)

-- A health check changes no column of any device but its status and the time of the change, and
-- neither the settings, the traps nor telegraf.conf.
pub check_device_health-StatusOnly :
    (env : Env) (key : Key) (w : World) → StatusOnly w (check_device_health env key w).1
unfolding Only
check_device_health-StatusOnly env key w =
    (check_device_health-Only env key w).after w
      (record { rows = refl; next_id = refl; settings = refl; traps = refl; conf = refl })
