-- ===== src/ConfigApi/Interval.antt =====
-- The polling interval of config-api/handlers/settings.go: what is refused, and what is read back.
use mathlib.Core.Path.{subst}
use beacon_v.Prelude.{
  ℕ, suc, true, false, none, some, ℤ, pos, negsuc, parse_int, eqb, ◌≡◌, refl, sym, arith, itoa,
  Bool-cases, inl, inr,
}
use beacon_v.Exec.{ok, ◌>>=◌, or_fail}
use beacon_v.World.{World, Env, tick}
use beacon_v.Snmp.TrapNames.{lookup}
use beacon_v.Store.Settings.{lookup-upsert, upsert, set_body, get-runs, set-runs}
use beacon_v.ConfigApi.{write_json, answer, polling_interval}
use beacon_v.ConfigApi.Settings.{
  polling_interval_key, allowed_polling_interval, int_text, get_polling_interval,
  set_polling_interval,
}

printed-30 : parse_int (itoa 30) ≡ some (pos 30)
unfolding parse_int itoa
printed-30 = refl

printed-60 : parse_int (itoa 60) ≡ some (pos 60)
unfolding parse_int itoa
printed-60 = refl

printed-120 : parse_int (itoa 120) ≡ some (pos 120)
unfolding parse_int itoa
printed-120 = refl

printed-300 : parse_int (itoa 300) ≡ some (pos 300)
unfolding parse_int itoa
printed-300 = refl

printed-600 : parse_int (itoa 600) ≡ some (pos 600)
unfolding parse_int itoa
printed-600 = refl

eqb-eq : (a b : ℕ) → eqb a b ≡ true → a ≡ b
eqb-eq a b h = ground arith

at_number :
    (n m : ℕ)
    → eqb n m ≡ true
    → parse_int (itoa m) ≡ some (pos m)
    → parse_int (itoa n) ≡ some (pos n)
at_number n m e h = subst (λ k. parse_int (itoa k) ≡ some (pos k)) (sym (eqb-eq n m e)) h

-- Every allowed interval is read back from its text.
pub parse_int-int_text :
    (n : ℤ) → allowed_polling_interval n ≡ true → parse_int (int_text n) ≡ some n
unfolding allowed_polling_interval
parse_int-int_text (negsuc n) h = absurd (ground arith)
parse_int-int_text (pos n) h = elim (Bool-cases (eqb n 30)) [
  | inl e ↦ at_number n 30 e printed-30
  | inr e30 ↦ elim (Bool-cases (eqb n 60)) [
    | inl e ↦ at_number n 60 e printed-60
    | inr e60 ↦ elim (Bool-cases (eqb n 120)) [
      | inl e ↦ at_number n 120 e printed-120
      | inr e120 ↦ elim (Bool-cases (eqb n 300)) [
        | inl e ↦ at_number n 300 e printed-300
        | inr e300 ↦ at_number n 600 (ground arith) printed-600
      ]
    ]
  ]
]

module _ (env : Env) where
  -- Without a failure of the driver, GET answers with the number whose text is stored.
  pub get-stored :
      (w : World) (n : ℤ)
      → allowed_polling_interval n ≡ true
      → lookup polling_interval_key w.settings ≡ some (int_text n)
      → env.fault w.ticks ≡ none
      → (get_polling_interval env w).0 ≡ write_json 200 (polling_interval n)
  unfolding get_polling_interval answer ◌>>=◌ or_fail
  get-stored w n allowed stored works =
      rw (get-runs env polling_interval_key w works, stored, parse_int-int_text n allowed) refl

  set_accepted :
      (w : World) (n : ℤ)
      → env.fault w.ticks ≡ none
      → allowed_polling_interval n ≡ true
      → set_polling_interval env (ok n) w ≡ (
        write_json 200 (polling_interval n),
        record (tick w) { settings = upsert polling_interval_key (int_text n) w.settings },
      )
  unfolding set_polling_interval answer ◌>>=◌ or_fail set_body
  set_accepted w n works allowed =
      rw (allowed, set-runs env polling_interval_key (int_text n) w works) refl

  set_refused :
      (w : World) (n : ℤ)
      → allowed_polling_interval n ≡ false
      → (set_polling_interval env (ok n) w).1 ≡ w
  unfolding set_polling_interval answer ◌>>=◌
  set_refused w n refused = rw refused refl

  -- POST refuses every interval but 30, 60, 120, 300 and 600 and then changes nothing; an allowed one
  -- is accepted, and the GET that follows answers with it, if the driver fails neither statement.
  pub set-get_polling_interval :
      (w : World) (n : ℤ)
      → env.fault w.ticks ≡ none
      → env.fault (suc w.ticks) ≡ none
      → (allowed_polling_interval n ≡ false → (set_polling_interval env (ok n) w).1 ≡ w)
        × (allowed_polling_interval n ≡ true
            → ((set_polling_interval env (ok n) w).0 ≡ write_json 200 (polling_interval n))
              × ((get_polling_interval env (set_polling_interval env (ok n) w).1).0
                  ≡ write_json 200 (polling_interval n)))
  set-get_polling_interval w n works works' = (
    set_refused w n,
    λ allowed. rw (set_accepted w n works allowed) (
      refl,
      get-stored _ n allowed
          (lookup-upsert polling_interval_key polling_interval_key (int_text n) w.settings) works',
    ),
  )
