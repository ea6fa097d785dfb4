-- ===== src/Store/Validity.antt =====
-- The invariant of the table `devices`, and what each way to change its rows keeps of it.
pub mod Statements
use mathlib.Core.List.{foldl}
use beacon_v.Prelude.{
  ℕ, suc, ◌≤◌, String, true, false, Option, none, some, List, [], ◌∷◌, ◌++◌, ◌==◌, ℤ, ◌≡◌, refl, ap,
  arith, eq_iff, Bool-cases, inl, inr, All, All-append, Option-cases, if-holds, ◌∙◌,
}
use beacon_v.World.{Json, Row, World, Env}
use beacon_v.Store.{has_id, find_id, find_ip, checked, set_column}
use beacon_v.Store.Devices.{insert_row, replace, remove, updated, update_found, delete_found}

-- The ids ascend strictly, from `lo` on and below `hi`.
abbrev pub Ordered : ℕ → List Row → ℕ → Type 0
Ordered lo [] hi = lo ≤ hi
Ordered lo (r ∷ rs) hi = (lo ≤ r.id) × Ordered (suc r.id) rs hi

-- No two rows have one address.
abbrev pub Distinct : List Row → Type 0
Distinct [] = Unit
Distinct (r ∷ rs) = (find_ip r.ip_address rs ≡ none) × Distinct rs

abbrev pub IsChecked : Row → Type 0
IsChecked r = checked r ≡ true

pub record IsValid (w : World) : Type 0 where
  pub ordered : Ordered 1 w.devices w.next_id
  pub distinct : Distinct w.devices
  pub constrained : All IsChecked w.devices

pub Ordered-append :
    (lo : ℕ) (rs : List Row) (hi : ℕ) (r : Row)
    → r.id ≡ hi
    → Ordered lo rs hi
    → Ordered lo (rs ++ r ∷ []) (suc hi)
Ordered-append lo [] hi r e h = (omega arith, omega arith)
Ordered-append lo (q ∷ rs) hi r e h = (h.0, Ordered-append (suc q.id) rs hi r e h.1)

pub Ordered-lower :
    (lo k : ℕ) (rs : List Row) (hi : ℕ) → k ≤ lo → Ordered lo rs hi → Ordered k rs hi
Ordered-lower lo k [] hi e h = omega arith
Ordered-lower lo k (r ∷ rs) hi e h = (omega arith, h.1)

find_ip-append :
    (ip : String) (rs : List Row) (r : Row)
    → find_ip ip rs ≡ none
    → (r.ip_address == ip) ≡ false
    → find_ip ip (rs ++ r ∷ []) ≡ none
unfolding find_ip
find_ip-append ip [] r h e = rw e
find_ip-append ip (q ∷ rs) r h e = elim (Bool-cases (q.ip_address == ip)) [
  | inl t ↦ absurd (ground arith)
  | inr f ↦ rw f (find_ip-append ip rs r (ground arith) e)
]

pub Distinct-append :
    (rs : List Row) (r : Row)
    → find_ip r.ip_address rs ≡ none
    → Distinct rs
    → Distinct (rs ++ r ∷ [])
unfolding find_ip
Distinct-append [] r h d = (refl, tt)
Distinct-append (q ∷ rs) r h d = elim (Bool-cases (q.ip_address == r.ip_address)) [
  | inl t ↦ absurd (ground arith)
  | inr f ↦ (
    find_ip-append q.ip_address rs r d.0
        (ground (arith, eq_iff q.ip_address r.ip_address, eq_iff r.ip_address q.ip_address)),
    Distinct-append rs r (ground arith) d.1,
  )
]

pub found_here :
    (id : ℤ) (q r : Row) (rs : List Row) → has_id id q ≡ true → find_id id (q ∷ rs) ≡ some r → r ≡ q
unfolding find_id
found_here id q r rs t f = let first : some q ≡ some r = rw t at f in cc

module _ (id : ℤ) (new : Row) where
  pub Ordered-replace :
      (lo : ℕ) (rs : List Row) (hi : ℕ) (r : Row)
      → find_id id rs ≡ some r
      → new.id ≡ r.id
      → Ordered lo rs hi
      → Ordered lo (replace id new rs) hi
  unfolding replace find_id
  Ordered-replace lo [] hi r f e h = h
  Ordered-replace lo (q ∷ rs) hi r f e h = elim (Bool-cases (has_id id q)) [
    | inl t ↦
        let same : new.id ≡ q.id = e ∙ ap (λ x. x.id) (found_here id q r rs t f) in
        rw t (omega (arith, h.0), rw same h.1)
    | inr n ↦ rw n (h.0, Ordered-replace (suc q.id) rs hi r (ground arith) e h.1)
  ]

  find_ip-replace :
      (ip : String) (rs : List Row) (r : Row)
      → find_id id rs ≡ some r
      → new.ip_address ≡ r.ip_address
      → find_ip ip rs ≡ none
      → find_ip ip (replace id new rs) ≡ none
  unfolding replace find_id find_ip
  find_ip-replace ip [] r f e h = refl
  find_ip-replace ip (q ∷ rs) r f e h =
      ground (arith, find_ip-replace ip rs r, eq_iff q.ip_address ip)

  pub Distinct-replace :
      (rs : List Row) (r : Row)
      → find_id id rs ≡ some r
      → new.ip_address ≡ r.ip_address
      → Distinct rs
      → Distinct (replace id new rs)
  unfolding replace find_id
  Distinct-replace [] r f e d = tt
  Distinct-replace (q ∷ rs) r f e d = elim (Bool-cases (has_id id q)) [
    | inl t ↦
        let same : new.ip_address ≡ q.ip_address =
          e ∙ ap (λ x. x.ip_address) (found_here id q r rs t f) in
        rw t (rw same d.0, d.1)
    | inr n ↦ rw n (
      find_ip-replace q.ip_address rs r (ground arith) e d.0,
      Distinct-replace rs r (ground arith) e d.1,
    )
  ]

  pub All-replace :
      (rs : List Row) → IsChecked new → All IsChecked rs → All IsChecked (replace id new rs)
  unfolding replace
  All-replace [] c h = tt
  All-replace (q ∷ rs) c h = elim (Bool-cases (has_id id q)) [
    | inl t ↦ rw t (c, h.1)
    | inr n ↦ rw n (h.0, All-replace rs c h.1)
  ]

module _ (id : ℤ) where
  pub Ordered-remove :
      (lo : ℕ) (rs : List Row) (hi : ℕ) → Ordered lo rs hi → Ordered lo (remove id rs) hi
  unfolding remove
  Ordered-remove lo [] hi h = h
  Ordered-remove lo (q ∷ rs) hi h = elim (Bool-cases (has_id id q)) [
    | inl t ↦ rw t (Ordered-lower (suc q.id) lo rs hi (omega (arith, h.0)) h.1)
    | inr n ↦ rw n (h.0, Ordered-remove (suc q.id) rs hi h.1)
  ]

  find_ip-remove :
      (ip : String) (rs : List Row) → find_ip ip rs ≡ none → find_ip ip (remove id rs) ≡ none
  unfolding remove find_ip
  find_ip-remove ip [] h = refl
  find_ip-remove ip (q ∷ rs) h = ground (arith, find_ip-remove ip rs)

  pub Distinct-remove : (rs : List Row) → Distinct rs → Distinct (remove id rs)
  unfolding remove
  Distinct-remove [] d = tt
  Distinct-remove (q ∷ rs) d = elim (Bool-cases (has_id id q)) [
    | inl t ↦ rw t d.1
    | inr n ↦ rw n (find_ip-remove q.ip_address rs d.0, Distinct-remove rs d.1)
  ]

  All-remove {κ} : (P : Row → Type κ) (rs : List Row) → All P rs → All P (remove id rs)
  unfolding remove
  All-remove P [] h = tt
  All-remove P (q ∷ rs) h = elim (Bool-cases (has_id id q)) [
    | inl t ↦ rw t h.1
    | inr n ↦ rw n (h.0, All-remove P rs h.1)
  ]

-- An UPDATE leaves the id and the address of a row.
abbrev pub Kept : Row → Row → Type 0
Kept r q = (q.id ≡ r.id) × (q.ip_address ≡ r.ip_address)

set_column-Kept : (env : Env) (r : Row) (u : String × Json) → Kept r (set_column env r u)
unfolding set_column
set_column-Kept env r (col, v) =
    let keep = if-holds (Kept r) in
    let done : (r.id ≡ r.id) × (r.ip_address ≡ r.ip_address) = (refl, refl) in
    keep (col == "hostname") _ _ done (
      keep (col == "snmp_version") _ _ done (
        keep (col == "community") _ _ done (
          keep (col == "v3_user") _ _ done (
            keep (col == "v3_auth_key") _ _ done (
              keep (col == "v3_priv_key") _ _ done (
                keep (col == "v3_auth_protocol") _ _ done (
                  keep (col == "v3_priv_protocol") _ _ done (
                    keep (col == "group_name") _ _ done (
                      keep (col == "status") _ _ done (
                        keep (col == "is_public_ip") _ _ done
                          (keep (col == "discovered_via") _ _ done done)))))))))))

pub set_columns-Kept :
    (env : Env) (us : List (String × Json)) (r : Row) → Kept r (foldl (set_column env) r us)
set_columns-Kept env [] r = (refl, refl)
set_columns-Kept env (u ∷ us) r =
    let (id, ip) = set_columns-Kept env us (set_column env r u) in
    let (id', ip') = set_column-Kept env r u in (id ∙ id', ip ∙ ip')

pub updated-Kept :
    (env : Env) (now : String) (us : List (String × Json)) (r : Row) → Kept r (updated env now us r)
unfolding updated
updated-Kept env now us r = set_columns-Kept env us r
