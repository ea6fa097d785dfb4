-- ===== src/Store/Nulls.antt =====
-- What a NULL in a column does to the listings of internal/store/devices.go.
use beacon_v.Prelude.{
  String, true, some, List, [], ◌∷◌, ℤ, pos, negsuc, ◌≡◌, refl, arith, Bool-cases, Option-cases,
  inl, inr,
}
use beacon_v.Exec.{Result, ok, err, ◌>>=◌, or_fail}
use beacon_v.World.{Error, null, Row, World, Env}
use beacon_v.Store.{Device, has_id, has_null, find_id, scan_device, scan_all, scan_next, statement}
use beacon_v.Store.Devices.{updated, update, list}
use beacon_v.Store.MapView.{row_at, same_id, update-row_at}
use beacon_v.Store.Validity.{IsValid, found_here}

abbrev pub IsErr {ℓ} : {A : Type ℓ} → {E : Type ℓ} → Result E A → Type ℓ
IsErr {E = E} r = (e : E) × (r ≡ err e)

scan_next-IsErr :
    (a : Result Error Device) (b : Result Error (List Device)) → IsErr b → IsErr (scan_next a b)
scan_next-IsErr (err e) b h = (_, refl)
scan_next-IsErr (ok d) b (e, h) = rw h (e, refl)

-- One row with a NULL fails the whole listing.
scan_all-IsErr :
    (id : ℤ) (r : Row) (rs : List Row)
    → find_id id rs ≡ some r
    → has_null r ≡ true
    → IsErr (scan_all rs)
unfolding find_id scan_all scan_device
scan_all-IsErr id r [] f h = absurd (cc)
scan_all-IsErr id r (q ∷ rs) f h = elim (Bool-cases (has_id id q)) [
  | inl t ↦
      let same : r ≡ q = found_here id q r rs t f in
      let nulls : has_null q ≡ true = rw same at h in rw nulls (_, refl)
  | inr u ↦ scan_next-IsErr _ _ (scan_all-IsErr id r rs (rw u at f) h)
]

same_id-same : (id : ℤ) → same_id id id ≡ true
same_id-same (pos n) = ground arith
same_id-same (negsuc n) = ground arith

module _ (env : Env) where
  hostname_null :
      (now : String) (r : Row) → has_null (updated env now (("hostname", null) ∷ []) r) ≡ true
  unfolding updated has_null
  hostname_null now r = refl

  list-IsErr : (w : World) → IsErr (scan_all w.devices) → IsErr (list env w).0
  unfolding list ◌>>=◌ or_fail
  list-IsErr w (e, failed) = elim (Option-cases (env.fault w.ticks)) [
    | inl works ↦ rw (works, failed, statement) (e, refl)
    | inr (f, fails) ↦ rw (fails, statement) (_, refl)
  ]

  -- On a valid table, once Update has accepted NULL for the host name of a device, List fails, whatever
  -- the other devices are.
  pub null-list :
      (w : World) (id : ℤ)
      → IsValid w
      → (update env id (("hostname", null) ∷ []) w).0 ≡ ok tt
      → IsErr (list env (update env id (("hostname", null) ∷ []) w).1).0
  null-list w id valid done =
      let (r, found, rows) = update-row_at env w valid id ("hostname", null) [] done in
      let w' = (update env id (("hostname", null) ∷ []) w).1 in
      let new = updated env (env.now w.ticks) (("hostname", null) ∷ []) r in
      let here : row_at id w' ≡ some new = (let at_id = rows id in rw (same_id-same id) at at_id) in
      list-IsErr w' (scan_all-IsErr id new w'.devices here (hostname_null (env.now w.ticks) r))
