-- ===== src/Store/Success.antt =====
-- What a statement did, when an operation of internal/store returns without an error.
use beacon_v.Prelude.{
  ℕ, suc, String, true, none, some, List, [], ◌∷◌, ◌++◌, ◌≡◌, refl, ap, ◌∙◌, Option-cases,
  Bool-cases, inl, inr, ℤ,
}
use beacon_v.Exec.{Result, Result-cases, ok, err, or_fail, map_err, ◌>>=◌}
use beacon_v.World.{Error, Json, Row, World, Env, Go, tick}
use beacon_v.Store.{Device, statement, timed, find_id, find_ip, checked}
use beacon_v.Store.Devices.{
  insert_row, replace, remove, updated, bindable, update_body, delete_body, create_body, inserted,
  with_status, all_allowed, create, update, delete,
}

-- The outcome of `m` at `w` is that of `n` at `v`: the value and the state after it.
pub record Returns {A : Type 0} (m : Result Error A × World) (n : Result Error A × World) (a : A)
    : Type 0 where
  pub value : n.0 ≡ ok a
  pub state : m.1 ≡ n.1

map_err-ok {ℓ} :
    {E D A : Type ℓ} (f : E → D) (r : Result E A) (a : A) → map_err f r ≡ ok a → r ≡ ok a
map_err-ok f (ok b) a h = cc
map_err-ok f (err e) a h = cc

module _ (env : Env) (f : Error → Error) (w : World) where
  pub statement-ok :
      {A : Type 0} (body : Go A) (a : A)
      → (or_fail f (statement env body) w).0 ≡ ok a
      → Returns (or_fail f (statement env body) w) (body (tick w)) a
  unfolding or_fail statement
  statement-ok body a h = elim (Option-cases (env.fault w.ticks)) [
    | inl works ↦
        let run : statement env body w ≡ body (tick w) = rw (works, statement) in
        record { value = map_err-ok f _ a (rw run at h); state = ap (λ r. r.1) run }
    | inr (e, fails) ↦
        let run : statement env body w ≡ (err e, tick w) = rw (fails, statement) in
        absurd (let bad : map_err f (err e) ≡ ok a = rw run at h in cc)
  ]

  pub timed-ok :
      {A : Type 0} (body : String → Go A) (a : A)
      → (or_fail f (timed env body) w).0 ≡ ok a
      → Returns (or_fail f (timed env body) w) (body (env.now w.ticks) (tick w)) a
  unfolding timed or_fail
  timed-ok body a h =
      let done = statement-ok (body (env.now w.ticks)) a h in
      record { value = done.value; state = done.state }

pub record Inserted (r : Row) (w : World) (id : ℕ) : Type 0 where
  pub next : w.next_id ≡ id
  pub fresh : find_ip r.ip_address w.devices ≡ none
  pub allowed : checked r ≡ true
  pub rows : (insert_row r w).1.devices ≡ w.devices ++ r ∷ []
  pub later : (insert_row r w).1.next_id ≡ suc w.next_id

pub insert_row-ok : (r : Row) (w : World) (id : ℕ) → (insert_row r w).0 ≡ ok id → Inserted r w id
unfolding insert_row
insert_row-ok r w id h = elim (Option-cases (find_ip r.ip_address w.devices)) [
  | inr (q, found) ↦ absurd (let bad : err _ ≡ ok id = rw found at h in cc)
  | inl missing ↦ elim (Bool-cases (checked r)) [
    | inr bad ↦ absurd (let bad : err _ ≡ ok id = rw (missing, bad) at h in cc)
    | inl good ↦
        let next : ok w.next_id ≡ ok id = rw (missing, good) at h in
        record {
          next = cc;
          fresh = missing;
          allowed = good;
          rows = rw (missing, good);
          later = rw (missing, good);
        }
  ]
]

-- A refused INSERT changes nothing.
pub insert_row-err :
    (r : Row) (w : World) (e : Error) → (insert_row r w).0 ≡ err e → (insert_row r w).1 ≡ w
unfolding insert_row
insert_row-err r w e h = elim (Option-cases (find_ip r.ip_address w.devices)) [
  | inr (q, found) ↦ rw found
  | inl missing ↦ elim (Bool-cases (checked r)) [
    | inr bad ↦ rw (missing, bad)
    | inl good ↦ absurd (let no : ok w.next_id ≡ err e = rw (missing, good) at h in cc)
  ]
]

pub record Updated (env : Env) (id : ℤ) (us : List (String × Json)) (now : String) (w : World)
    (r : Row) : Type 0 where
  pub found : find_id id w.devices ≡ some r
  pub allowed : checked (updated env now us r) ≡ true
  pub rows : (update_body env id us now w).1.devices ≡ replace id (updated env now us r) w.devices

pub update_body-ok :
    (env : Env) (id : ℤ) (us : List (String × Json)) (now : String) (w : World)
    → (update_body env id us now w).0 ≡ ok tt
    → (r : Row) × Updated env id us now w r
update_body-ok env id us now w h = elim (Bool-cases (bindable us)) [
  | inr unbound ↦ absurd (let bad : err _ ≡ ok tt = rw unbound at h in cc)
  | inl bound ↦ elim (Option-cases (find_id id w.devices)) [
    | inl missing ↦ absurd (let bad : err _ ≡ ok tt = rw (bound, missing) at h in cc)
    | inr (r, found) ↦ elim (Bool-cases (checked (updated env now us r))) [
      | inr refused ↦ absurd (let bad : err _ ≡ ok tt = rw (bound, found, refused) at h in cc)
      | inl good ↦ (r, record { found = found; allowed = good; rows = rw (bound, found, good) })
    ]
  ]
]

pub delete_body-ok :
    (id : ℤ) (w : World)
    → (delete_body id w).0 ≡ ok tt
    → (r : Row) × (find_id id w.devices ≡ some r)
      × ((delete_body id w).1.devices ≡ remove id w.devices)
delete_body-ok id w h = elim (Option-cases (find_id id w.devices)) [
  | inl missing ↦ absurd (let bad : err _ ≡ ok tt = rw missing at h in cc)
  | inr (r, found) ↦ (r, found, rw found)
]

module _ (env : Env) (w : World) where
  pub create-ok :
      (d : Device) (id : ℕ)
      → (create env d w).0 ≡ ok id
      → Inserted (inserted (with_status d) w.next_id (env.now w.ticks)) (tick w) id
        × ((create env d w).1
            ≡ (insert_row (inserted (with_status d) w.next_id (env.now w.ticks)) (tick w)).1)
  unfolding create
  create-ok d id e =
      let done = timed-ok env _ w (create_body d) id e in
      (insert_row-ok _ (tick w) id done.value, done.state)

  -- A Create that fails adds nothing.
  pub create-err :
      (d : Device) (e : Error) → (create env d w).0 ≡ err e → (create env d w).1.devices ≡ w.devices
  unfolding create timed or_fail
  create-err d e h = elim (Option-cases (env.fault w.ticks)) [
    | inr (f, fails) ↦ rw (fails, statement) refl
    | inl works ↦
        let r : Row = inserted (with_status d) w.next_id (env.now w.ticks) in
        let run : timed env (create_body d) w ≡ insert_row r (tick w) = rw (works, statement) in
        elim (Result-cases (insert_row r (tick w)).0) [
          | inl (id, done) ↦ absurd (let bad : ok id ≡ err e = rw (run, done) at h in cc)
          | inr (f, failed) ↦ rw run (ap (λ x. x.devices) (insert_row-err r (tick w) f failed))
        ]
  ]

  pub update-ok :
      (id : ℤ) (u : String × Json) (us : List (String × Json))
      → (update env id (u ∷ us) w).0 ≡ ok tt
      → (r : Row) × Updated env id (u ∷ us) (env.now w.ticks) (tick w) r
        × ((update env id (u ∷ us) w).1
            ≡ (update_body env id (u ∷ us) (env.now w.ticks) (tick w)).1)
  unfolding update ◌>>=◌
  update-ok id u us e = elim (Bool-cases (all_allowed (u ∷ us))) [
    | inr bad ↦ absurd (let no : err _ ≡ ok tt = rw bad at e in cc)
    | inl good ↦
        let done = timed-ok env _ w (update_body env id (u ∷ us)) tt (rw good at e) in
        let (r, up) = update_body-ok env id (u ∷ us) (env.now w.ticks) (tick w) done.value in
        (r, up, rw good done.state)
  ]

  pub delete-ok :
      (id : ℤ)
      → (delete env id w).0 ≡ ok tt
      → (r : Row) × (find_id id w.devices ≡ some r)
        × ((delete env id w).1.devices ≡ remove id w.devices)
  unfolding delete
  delete-ok id e =
      let done = statement-ok env _ w (delete_body id) tt e in
      let (r, found, rows) = delete_body-ok id (tick w) done.value in
      (r, found, ap (λ x. x.devices) done.state ∙ rows)
