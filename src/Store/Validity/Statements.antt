-- ===== src/Store/Validity/Statements.antt =====
-- INSERT, UPDATE and DELETE of internal/store/devices.go keep the table `devices` valid.
use beacon_v.Prelude.{
  String, Option, none, some, List, [], ◌∷◌, ℤ, ◌≡◌, Bool-cases, inl, inr, All-append, Option-cases,
}
use beacon_v.World.{Json, Row, World, Env}
use beacon_v.Store.{find_id, find_ip, checked}
use beacon_v.Store.Devices.{insert_row, updated, update_found, delete_found}
use beacon_v.Store.Validity.{
  IsChecked, IsValid, Ordered-append, Distinct-append, set_columns-Kept, Ordered-replace,
  Distinct-replace, All-replace, Ordered-remove, Distinct-remove, All-remove,
}

-- The statements, as their bodies run when the driver does not fail them.
pub insert_row-IsValid :
    (r : Row) (w : World) → r.id ≡ w.next_id → IsValid w → IsValid (insert_row r w).1
unfolding insert_row
insert_row-IsValid r w e v = elim (Option-cases (find_ip r.ip_address w.devices)) [
  | inr (q, found) ↦ rw found v
  | inl missing ↦ elim (Bool-cases (checked r)) [
    | inr bad ↦ rw (missing, bad) v
    | inl good ↦
        rw (missing, good)
          (record {
            ordered = Ordered-append 1 w.devices w.next_id r e v.ordered;
            distinct = Distinct-append w.devices r missing v.distinct;
            constrained = All-append IsChecked w.devices (r ∷ []) v.constrained (good, tt);
          })
  ]
]

pub update_found-IsValid :
    (env : Env) (id : ℤ) (us : List (String × Json)) (now : String) (w : World)
    → IsValid w
    → IsValid (update_found env id us now (find_id id w.devices) w).1
unfolding updated
update_found-IsValid env id us now w v = elim (Option-cases (find_id id w.devices)) [
  | inl missing ↦ rw missing v
  | inr (r, found) ↦
      let (kept_id, kept_ip) = set_columns-Kept env us r in
      elim (Bool-cases (checked (updated env now us r))) [
        | inr bad ↦ rw (found, bad) v
        | inl good ↦
            rw (found, good)
              (record {
                ordered = Ordered-replace id _ 1 w.devices w.next_id r found kept_id v.ordered;
                distinct = Distinct-replace id _ w.devices r found kept_ip v.distinct;
                constrained = All-replace id _ w.devices good v.constrained;
              })
      ]
]

pub delete_found-IsValid :
    (id : ℤ) (o : Option Row) (w : World) → IsValid w → IsValid (delete_found id o w).1
delete_found-IsValid id none w v = v
delete_found-IsValid id (some r) w v = record {
  ordered = Ordered-remove id 1 w.devices w.next_id v.ordered;
  distinct = Distinct-remove id w.devices v.distinct;
  constrained = All-remove id IsChecked w.devices v.constrained;
}
