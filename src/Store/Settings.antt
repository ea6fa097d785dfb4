-- ===== src/Store/Settings.antt =====
-- internal/store/settings.go: the table `settings`, keys with values.
use beacon_v.Prelude.{
  Option-cases, inl, inr, String, Option, none, some, List, [], ◌∷◌, ◌==◌, if◌then◌else◌, ◌<>◌, ◌≡◌,
  refl, arith, eq_iff,
}
use beacon_v.Exec.{Result, ok, err, lift, ◌>>=◌, or_fail}
use beacon_v.Exec.Ensures.{Post}
use beacon_v.World.{tick, World, Error, wrap, not_found, Env, Go}
use beacon_v.Snmp.TrapNames.{lookup}
use beacon_v.Store.{statement}

-- INSERT ... ON CONFLICT(key) DO UPDATE.
unfoldable pub upsert : String → String → List (String × String) → List (String × String)
upsert k v [] = (k, v) ∷ []
upsert k v ((j, u) ∷ m) = if j == k then (k, v) ∷ m else (j, u) ∷ upsert k v m

pub lookup-upsert :
    (k j v : String) (m : List (String × String))
    → lookup j (upsert k v m) ≡ (if k == j then some v else lookup j m)
unfolding lookup upsert
lookup-upsert k j v [] = refl
lookup-upsert k j v ((i, u) ∷ m) =
    ground (arith, eq_iff k j, eq_iff i k, eq_iff i j, lookup-upsert k j v m)

abbrev pub setting_found : Option String → Result Error String
setting_found none = err not_found
setting_found (some v) = ok v

unfoldable pub set_body : String → String → Go (Unit {0})
unfolding upsert
set_body key v w = (ok tt, record w { settings = upsert key v w.settings })

module _ (env : Env) where
  unfoldable pub get : String → Go String
  unfolding statement lookup
  get key = do
    found ←
        or_fail (wrap ("store: getting setting " <> key))
          (statement env (λ w. (ok (lookup key w.settings), w)))
    lift (setting_found found)

  unfoldable pub set : String → String → Go (Unit {0})
  unfolding statement set_body
  set key v = or_fail (wrap ("store: setting " <> key)) (statement env (set_body key v))

  pub get-runs :
      (key : String) (w : World)
      → env.fault w.ticks ≡ none
      → get key w ≡ (setting_found (lookup key w.settings), tick w)
  unfolding get ◌>>=◌ or_fail
  get-runs key w works = rw (works, statement) refl

  pub set-runs :
      (key v : String) (w : World)
      → env.fault w.ticks ≡ none
      → set key v w ≡ set_body key v (tick w)
  unfolding set set_body or_fail
  set-runs key v w works = rw (works, statement) refl

  -- The value that is read is the stored one, and reading changes nothing but the count of calls.
  pub get-Post :
      (key : String) (w : World)
      → Post
          (λ v t. (lookup key w.settings ≡ some v) × (t ≡ tick w))
          (λ t. t ≡ tick w)
          (get key w).0
          (get key w).1
  unfolding get ◌>>=◌ or_fail
  get-Post key w = elim (Option-cases (env.fault w.ticks)) [
    | inr (e, fails) ↦
        let run : get key w ≡ (err (wrap ("store: getting setting " <> key) e), tick w) =
          rw (fails, statement) in
        rw run refl
    | inl works ↦
        let run : get key w ≡ (setting_found (lookup key w.settings), tick w) =
          rw (works, statement) in
        elim (Option-cases (lookup key w.settings)) [
          | inl missing ↦ rw (run, missing) refl
          | inr (v, found) ↦ rw (run, found) (refl, refl)
        ]
  ]
