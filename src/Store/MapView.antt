-- ===== src/Store/MapView.antt =====
-- The table `devices` as a finite map from ids to rows: each operation of
-- internal/store/devices.go is one step on the map, and a failing one is none.
use mathlib.Core.Path.{subst}
use beacon_v.Prelude.{
  ℕ, suc, ◌≤◌, String, Bool, false, Option, none, some, List, [], ◌∷◌, ◌++◌, eqb, ℤ, pos, negsuc,
  if◌then◌else◌, ◌≡◌, refl, sym, ap, ◌∙◌, arith, Bool-cases, inl, inr,
}
use beacon_v.Exec.{ok}
use beacon_v.World.{Json, Row, World, Env}
use beacon_v.Store.{Device, find_id}
use beacon_v.Store.Devices.{inserted, with_status, replace, remove, updated, create, update, delete}
use beacon_v.Store.Success.{create-ok, update-ok, delete-ok}
use beacon_v.Store.Validity.{updated-Kept, IsValid, Ordered, found_here}

abbrev pub same_id : ℤ → ℤ → Bool
same_id (pos a) (pos b) = eqb a b
same_id (negsuc a) (negsuc b) = eqb a b
same_id _ _ = false

find_id-below :
    (n lo : ℕ) (rs : List Row) (hi : ℕ) → suc n ≤ lo → Ordered lo rs hi → find_id (pos n) rs ≡ none
unfolding find_id
find_id-below n lo [] hi e h = refl
find_id-below n lo (r ∷ rs) hi e h = ground (arith, find_id-below n (suc r.id) rs hi)

Ordered-le : (lo : ℕ) (rs : List Row) (hi : ℕ) → Ordered lo rs hi → lo ≤ hi
Ordered-le lo [] hi h = h
Ordered-le lo (r ∷ rs) hi h = omega (arith, h.0, Ordered-le (suc r.id) rs hi h.1)

pub find_id-fresh :
    (lo : ℕ) (rs : List Row) (hi : ℕ) → Ordered lo rs hi → find_id (pos hi) rs ≡ none
unfolding find_id
find_id-fresh lo [] hi h = refl
find_id-fresh lo (r ∷ rs) hi h =
    ground (arith, Ordered-le (suc r.id) rs hi h.1, find_id-fresh (suc r.id) rs hi h.1)

-- No row has a negative id.
find_id-negative : (n : ℕ) (rs : List Row) → find_id (negsuc n) rs ≡ none
unfolding find_id
find_id-negative n [] = refl
find_id-negative n (r ∷ rs) = find_id-negative n rs

pub find_id-append :
    (j : ℤ) (rs : List Row) (r : Row)
    → find_id (pos r.id) rs ≡ none
    → find_id j (rs ++ r ∷ []) ≡ (if same_id j (pos r.id) then some r else find_id j rs)
unfolding find_id
find_id-append (negsuc n) rs r h = find_id-negative n (rs ++ r ∷ []) ∙ sym (find_id-negative n rs)
find_id-append (pos n) [] r h = refl
find_id-append (pos n) (q ∷ rs) r h = ground (arith, find_id-append (pos n) rs r)

pub find_id-replace :
    (id j : ℤ) (new r : Row) (rs : List Row)
    → find_id id rs ≡ some r
    → new.id ≡ r.id
    → find_id j (replace id new rs) ≡ (if same_id j id then some new else find_id j rs)
unfolding find_id replace
find_id-replace (negsuc n) j new r rs f e = absurd (cc (find_id-negative n rs))
find_id-replace (pos n) (negsuc m) new r rs f e =
    find_id-negative m (replace (pos n) new rs) ∙ sym (find_id-negative m rs)
find_id-replace (pos n) (pos m) new r [] f e = cc
find_id-replace (pos n) (pos m) new r (q ∷ rs) f e = elim (Bool-cases (eqb n q.id)) [
  | inl t ↦
      let same : new.id ≡ q.id = e ∙ ap (λ x. x.id) (found_here (pos n) q r rs t f) in
      rw (t, same) (ground arith)
  | inr u ↦ rw u (ground (arith, find_id-replace (pos n) (pos m) new r rs (rw u at f) e))
]

remove-negative : (n : ℕ) (rs : List Row) → remove (negsuc n) rs ≡ rs
unfolding remove
remove-negative n [] = refl
remove-negative n (r ∷ rs) = rw (remove-negative n rs)

pub find_id-remove :
    (id j : ℤ) (lo : ℕ) (rs : List Row) (hi : ℕ)
    → Ordered lo rs hi
    → find_id j (remove id rs) ≡ (if same_id j id then none else find_id j rs)
unfolding find_id remove
find_id-remove (pos n) (pos m) lo [] hi h = ground arith
find_id-remove (pos n) (pos m) lo (q ∷ rs) hi h = ground (
  arith,
  find_id-remove (pos n) (pos m) (suc q.id) rs hi h.1,
  find_id-below q.id (suc q.id) rs hi (omega arith) h.1,
)
find_id-remove (pos n) (negsuc m) lo rs hi h =
    find_id-negative m (remove (pos n) rs) ∙ sym (find_id-negative m rs)
find_id-remove (negsuc n) (pos m) lo rs hi h = rw (remove-negative n rs)
find_id-remove (negsuc n) (negsuc m) lo rs hi h =
    rw (remove-negative n rs, find_id-negative m rs) (ground arith)

abbrev pub row_at : ℤ → World → Option Row
row_at j w = find_id j w.devices

module _ (env : Env) (w : World) (valid : IsValid w) where
  -- On a valid table, a successful Create gives the next id, and adds a row at that id alone: the device's fields, with
  -- "pending" for an empty status, and the time of the statement.
  pub create-row_at :
      (d : Device) (id : ℕ)
      → (create env d w).0 ≡ ok id
      → (id ≡ w.next_id)
        × ((j : ℤ)
            → row_at j (create env d w).1 ≡ (
                if same_id j (pos id)
                then some (inserted (with_status d) id (env.now w.ticks))
                else row_at j w))
  create-row_at d id e =
      let (ins, state) = create-ok env w d id e in
      let new : ℕ → Row = λ n. inserted (with_status d) n (env.now w.ticks) in
      let rows : (create env d w).1.devices ≡ w.devices ++ new w.next_id ∷ [] =
        ap (λ x. x.devices) state ∙ ins.rows in
      let fresh = find_id-fresh 1 w.devices w.next_id valid.ordered in
      (
        sym ins.next,
        λ j. rw rows (
            subst
              (λ n.
                find_id j (w.devices ++ new w.next_id ∷ [])
                ≡ (if same_id j (pos n) then some (new n) else find_id j w.devices))
              ins.next (find_id-append j w.devices (new w.next_id) fresh)),
      )

  -- On a valid table, a successful Update of at least one column changes the row with this id alone, which was there.
  pub update-row_at :
      (id : ℤ) (u : String × Json) (us : List (String × Json))
      → (update env id (u ∷ us) w).0 ≡ ok tt
      → (r : Row) × (row_at id w ≡ some r)
        × ((j : ℤ)
            → row_at j (update env id (u ∷ us) w).1 ≡ (
                if same_id j id
                then some (updated env (env.now w.ticks) (u ∷ us) r)
                else row_at j w))
  update-row_at id u us e =
      let (r, up, state) = update-ok env w id u us e in
      (
        r,
        up.found,
        λ j.
            rw (state, up.rows)
              (find_id-replace id j _ r w.devices up.found (updated-Kept env _ (u ∷ us) r).0),
      )

  -- On a valid table, a successful Delete removes the row with this id and no other.
  pub delete-row_at :
      (id : ℤ)
      → (delete env id w).0 ≡ ok tt
      → (j : ℤ) → row_at j (delete env id w).1 ≡ (if same_id j id then none else row_at j w)
  delete-row_at id e j =
      let (r, found, rows) = delete-ok env w id e in
      rw rows (find_id-remove id j 1 w.devices w.next_id valid.ordered)
