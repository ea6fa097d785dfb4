-- ===== src/Store/Preservation.antt =====
-- The operations of internal/store/devices.go keep the table valid, and leave the other tables alone.
use beacon_v.Prelude.{◌≡◌, String, List, [], ◌∷◌, refl, ℤ, Option-cases, inl, inr, if-holds}
use beacon_v.Exec.{Result, err}
use beacon_v.Exec.Ensures.{Ensures}
use beacon_v.Exec.Keeps.{Keeps, Keeps-or_fail, Keeps-fail, Keeps-pure, Keeps-if, keeps_rules}
use beacon_v.World.{Error, Json, World, Env, Go, tick}
use beacon_v.World.Ticks.{IgnoresTicks}
use beacon_v.Store.{Device, statement, timed, find_id}
use beacon_v.Store.Devices.{
  create_body, update_body, delete_body, all_allowed, bindable, list, list_by_status, get,
  get_by_ip, create, update, delete,
}
use beacon_v.Store.Validity.{IsValid}
use beacon_v.Store.Validity.Statements.{
  insert_row-IsValid, update_found-IsValid, delete_found-IsValid,
}

module _ {P : World → Type 0} (ignores : IgnoresTicks P) (env : Env) where
  pub statement-after :
      {A : Type 0} (body : Go A) (w : World)
      → (P (tick w) → P (body (tick w)).1)
      → P w
      → P (statement env body w).1
  unfolding statement
  statement-after body w k h = elim (Option-cases (env.fault w.ticks)) [
    | inl none_failed ↦ rw (none_failed, statement) (k (ignores w h))
    | inr (e, failed) ↦ rw (failed, statement) (ignores w h)
  ]

  -- Any statement that only reads.
  pub Keeps-read :
      {A : Type 0} (f : World → Result Error A) → Keeps P (statement env (λ w. (f w, w)))
  Keeps-read f = record { after = λ w. statement-after (λ v. (f v, v)) w (λ h. h) }

  -- Reading the table changes nothing.
  pub list-keeps : Keeps P (list env)
  unfolding list
  list-keeps = search (keeps_rules, Keeps-read)

  pub list_by_status-keeps : (status : String) → Keeps P (list_by_status env status)
  unfolding list_by_status
  list_by_status-keeps status = search (keeps_rules, Keeps-read)

  pub get-keeps : (id : ℤ) → Keeps P (get env id)
  unfolding get
  get-keeps id = search (keeps_rules, Keeps-read)

  pub get_by_ip-keeps : (ip : String) → Keeps P (get_by_ip env ip)
  unfolding get_by_ip
  get_by_ip-keeps ip = search (keeps_rules, Keeps-read)

  pub timed-keeps :
      {A : Type 0} (body : String → Go A)
      → ((now : String) → Keeps P (body now))
      → Keeps P (timed env body)
  unfolding timed
  timed-keeps body k = record {
    after = λ w. statement-after (body (env.now w.ticks)) w ((k (env.now w.ticks)).after (tick w));
  }

  -- A writing operation keeps `P` if the body of its statement does.
  pub create-keeps :
      (d : Device) → ((now : String) → Keeps P (create_body d now)) → Keeps P (create env d)
  unfolding create
  create-keeps d k = Keeps-or_fail _ _ (timed-keeps (create_body d) k)

  pub update-keeps :
      (id : ℤ) (us : List (String × Json))
      → ((now : String) → Keeps P (update_body env id us now))
      → Keeps P (update env id us)
  unfolding update
  update-keeps id [] k = Keeps-pure tt
  update-keeps id (u ∷ us) k =
      Keeps-if (all_allowed (u ∷ us)) _ _ (λ _. Keeps-or_fail _ _ (timed-keeps _ k))
        (λ _. Keeps-fail _)

  pub delete-keeps : (id : ℤ) → Keeps P (delete_body id) → Keeps P (delete env id)
  unfolding delete
  delete-keeps id k =
      Keeps-or_fail _ _
        (record { after = λ w. statement-after (delete_body id) w (k.after (tick w)) })

-- The same with a postcondition: what fails leaves what the failure is allowed to leave.
module _ {P R : World → Type 0} {A : Type 0} {Q : A → World → Type 0} (ignores : IgnoresTicks P)
    (env : Env) where
  pub Ensures-timed :
      (body : String → Go A)
      → ((w : World) → P w → R w)
      → ((now : String) → Ensures P (body now) Q R)
      → Ensures P (timed env body) Q R
  unfolding timed statement
  Ensures-timed body weaken h = record {
    after = λ w p. elim (Option-cases (env.fault w.ticks)) [
      | inl works ↦
          let run : timed env body w ≡ body (env.now w.ticks) (tick w) = rw (works, statement) in
          rw run ((h (env.now w.ticks)).after (tick w) (ignores w p))
      | inr (e, fails) ↦
          let run : timed env body w ≡ (err e, tick w) = rw (fails, statement) in
          rw run (weaken (tick w) (ignores w p))
    ];
  }

pub IsValid-ignores : IgnoresTicks IsValid
IsValid-ignores w v = record {
  ordered = v.ordered;
  distinct = v.distinct;
  constrained = v.constrained;
}

module _ (env : Env) where
  pub create-IsValid : (d : Device) → Keeps IsValid (create env d)
  create-IsValid d =
      create-keeps IsValid-ignores env d
        (λ now. record { after = λ w. insert_row-IsValid _ w refl })

  pub update-IsValid : (id : ℤ) (us : List (String × Json)) → Keeps IsValid (update env id us)
  update-IsValid id us = update-keeps IsValid-ignores env id us λ now. record {
    after = λ w v.
        if-holds (λ (r : Result Error (Unit {0}) × World). IsValid r.1) (bindable us) _ _
          (update_found-IsValid env id us now w v) v;
  }

  pub delete-IsValid : (id : ℤ) → Keeps IsValid (delete env id)
  delete-IsValid id =
      delete-keeps IsValid-ignores env id
        (record { after = λ w. delete_found-IsValid id (find_id id w.devices) w })
