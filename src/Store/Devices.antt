-- ===== src/Store/Devices.antt =====
-- internal/store/devices.go: the operations on the table `devices`.
use mathlib.Core.List.{foldl}
use beacon_v.Prelude.{
  ℕ, suc, String, Bool, true, false, not, ◌&&◌, Option, none, some, List, [], ◌∷◌, ◌++◌, ◌==◌, keep,
  if◌then◌else◌, ◌<>◌, itoa, ℤ, pos, negsuc,
}
use beacon_v.Exec.{ok, err, pure, fail, lift, ◌>>=◌, or_fail}
use beacon_v.World.{Error, message, wrap, not_found, Json, compound, Row, Env, Go}
use beacon_v.Store.{
  Device, statement, timed, scan_all, scan_found, has_id, find_id, find_ip, is_null, is_status,
  checked, allowed_device_column, set_column,
}

-- `%d` of an id.
abbrev pub id_text : ℤ → String
id_text (pos n) = itoa n
id_text (negsuc n) = "-" <> itoa (suc n)

-- The row that INSERT makes of a device, with the defaults of the schema.
abbrev pub inserted : Device → ℕ → String → Row
inserted d id now = record {
  id = id;
  ip_address = d.ip_address;
  hostname = some d.hostname;
  snmp_version = some d.snmp_version;
  community = some d.community;
  v3_user = some d.v3_user;
  v3_auth_key = some d.v3_auth_key;
  v3_priv_key = some d.v3_priv_key;
  v3_auth_protocol = some d.v3_auth_protocol;
  v3_priv_protocol = some d.v3_priv_protocol;
  group_name = some d.group_name;
  status = some d.status;
  is_public_ip = some d.is_public_ip;
  discovered_via = some d.discovered_via;
  created_at = now;
  updated_at = now;
}

-- UNIQUE on `ip_address`, the CHECK constraints, and AUTOINCREMENT.
unfoldable pub insert_row : Row → Go ℕ
insert_row r w =
    if is_null (find_ip r.ip_address w.devices)
    then (if checked r
        then (ok w.next_id, record w { devices = w.devices ++ r ∷ []; next_id = suc w.next_id })
        else (err (message "CHECK constraint failed"), w))
    else (err (message "UNIQUE constraint failed: devices.ip_address"), w)

abbrev pub with_status : Device → Device
with_status d = if d.status == "" then record d { status = "pending" } else d

unfoldable pub replace : ℤ → Row → List Row → List Row
replace id new [] = []
replace id new (r ∷ rs) = if has_id id r then new ∷ rs else r ∷ replace id new rs

unfoldable pub remove : ℤ → List Row → List Row
remove id [] = []
remove id (r ∷ rs) = if has_id id r then rs else r ∷ remove id rs

unfoldable pub all_allowed : List (String × Json) → Bool
unfolding allowed_device_column
all_allowed [] = true
all_allowed ((col, v) ∷ us) = allowed_device_column col && all_allowed us

abbrev pub is_compound : Json → Bool
is_compound compound = true
is_compound _ = false

-- The driver binds no maps and no arrays.
unfoldable pub bindable : List (String × Json) → Bool
bindable [] = true
bindable ((col, v) ∷ us) = not (is_compound v) && bindable us

-- The row after UPDATE ... SET ..., updated_at = CURRENT_TIMESTAMP.
unfoldable pub updated : Env → String → List (String × Json) → Row → Row
unfolding set_column
updated env now us r = record (foldl (set_column env) r us) { updated_at = now }

abbrev pub write_row : ℤ → Row → Go (Unit {0})
write_row id r w =
    if checked r
    then (ok tt, record w { devices = replace id r w.devices })
    else (err (message "CHECK constraint failed"), w)

-- No row with this id: no row is affected.
abbrev pub update_found : Env → ℤ → List (String × Json) → String → Option Row → Go (Unit {0})
update_found env id us now none w = (err not_found, w)
update_found env id us now (some r) w = write_row id (updated env now us r) w

abbrev pub delete_found : ℤ → Option Row → Go (Unit {0})
delete_found id none w = (err not_found, w)
delete_found id (some r) w = (ok tt, record w { devices = remove id w.devices })

abbrev pub create_body : Device → String → Go ℕ
create_body d now w = insert_row (inserted (with_status d) w.next_id now) w

abbrev pub update_body : Env → ℤ → List (String × Json) → String → Go (Unit {0})
update_body env id us now w =
    if bindable us
    then update_found env id us now (find_id id w.devices) w
    else (err (message "unsupported type"), w)

abbrev pub delete_body : ℤ → Go (Unit {0})
delete_body id w = delete_found id (find_id id w.devices) w

-- Which error of a statement is wrapped: "no row affected" is found after the statement.
abbrev pub in_context : String → Error → Error
in_context context not_found = not_found
in_context context e = wrap context e

module _ (env : Env) where
  unfoldable pub list : Go (List Device)
  unfolding statement scan_all
  list = do
    rows ← or_fail (wrap "store: listing devices") (statement env (λ w. (ok w.devices, w)))
    lift (scan_all rows)

  unfoldable pub list_by_status : String → Go (List Device)
  unfolding statement scan_all
  list_by_status status = do
    rows ←
        or_fail (wrap "store: listing devices by status")
          (statement env (λ w. (ok (keep (is_status status) w.devices), w)))
    lift (scan_all rows)

  unfoldable pub get : ℤ → Go Device
  unfolding statement find_id
  get id = do
    let context = "store: getting device " <> id_text id
    row ← or_fail (wrap context) (statement env (λ w. (ok (find_id id w.devices), w)))
    lift (scan_found context row)

  unfoldable pub get_by_ip : String → Go Device
  unfolding statement find_ip
  get_by_ip ip = do
    let context = "store: getting device by ip " <> ip
    row ← or_fail (wrap context) (statement env (λ w. (ok (find_ip ip w.devices), w)))
    lift (scan_found context row)

  unfoldable pub create : Device → Go ℕ
  unfolding timed insert_row checked find_ip
  create d = or_fail (wrap "store: creating device") (timed env (create_body d))

  -- Nothing to write, or an unknown column: no statement is run.
  unfoldable pub update : ℤ → List (String × Json) → Go (Unit {0})
  unfolding timed updated bindable all_allowed find_id checked replace
  update id [] = pure tt
  update id (u ∷ us) =
      if all_allowed (u ∷ us)
      then or_fail (in_context ("store: updating device " <> id_text id))
          (timed env (update_body env id (u ∷ us)))
      else fail (message "store: invalid column")

  unfoldable pub delete : ℤ → Go (Unit {0})
  unfolding statement find_id remove
  delete id =
      or_fail (in_context ("store: deleting device " <> id_text id))
        (statement env (delete_body id))
