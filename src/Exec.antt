-- ===== src/Exec.antt =====
-- Results of Go functions that return an error, and stateful code that may fail.
pub mod Keeps
pub mod Ensures
use beacon_v.Prelude.{
  Bool, true, false, Option, none, some, List, [], ◌∷◌, ◌≡◌, refl, ◌⊎◌, inl, inr,
}

pub data Result {ℓ} (E A : Type ℓ) : Type ℓ where
  ok : A → Result E A
  err : E → Result E A

pub Result-cases {ℓ} :
    {E A : Type ℓ} (r : Result E A) → ((a : A) × (r ≡ ok a)) ⊎ ((e : E) × (r ≡ err e))
Result-cases (ok a) = inl (a, refl)
Result-cases (err e) = inr (e, refl)

-- What an early return leaves undone is not done; what was written before it stays written.
abbrev pub Exec {ℓ} : Type ℓ → Type ℓ → Type ℓ → Type ℓ
Exec S E A = S → Result E A × S

abbrev pub continue {ℓ} : {S E A B : Type ℓ} → Result E A → (A → Exec S E B) → Exec S E B
continue (ok a) f s = f a s
continue (err e) f s = (err e, s)

module _ {ℓ} {S E A : Type ℓ} where
  pub pure : A → Exec S E A
  pure a s = (ok a, s)

  pub fail : E → Exec S E A
  fail e s = (err e, s)

  pub lift : Result E A → Exec S E A
  lift r s = (r, s)

  pub gets : (S → A) → Exec S E A
  gets f s = (ok (f s), s)

  pub modify : A → (S → S) → Exec S E A
  modify a f s = (ok a, f s)

infixl 10 ◌>>=◌ ◌>>◌
-- Opening this opens the actions above too.
unfoldable pub ◌>>=◌ {ℓ} : {S E A B : Type ℓ} → Exec S E A → (A → Exec S E B) → Exec S E B
unfolding pure fail lift gets modify
◌>>=◌ m f s = let (r, t) = m s in continue r f t

abbrev pub ◌>>◌ {ℓ} : {S E A B : Type ℓ} → Exec S E A → Exec S E B → Exec S E B
m >> n = m >>= λ _. n

-- The outcome of a call as a value, for code that looks at the error and goes on.
unfoldable pub attempt {ℓ} : {S E D A : Type ℓ} → Exec S E A → Exec S D (Result E A)
attempt m s = let (r, t) = m s in (ok r, t)

-- A call whose error is turned into another one, such as a response.
abbrev pub map_err {ℓ} : {E D A : Type ℓ} → (E → D) → Result E A → Result D A
map_err f (ok a) = ok a
map_err f (err e) = err (f e)

unfoldable pub or_fail {ℓ} : {S E D A : Type ℓ} → (E → D) → Exec S E A → Exec S D A
or_fail f m s = let (r, t) = m s in (map_err f r, t)

-- A loop over a list whose body may end the loop by an error.
unfoldable pub for_each {ℓ} :
    {S E A : Type ℓ} → List A → (A → Exec S E (Unit {ℓ})) → Exec S E (Unit {ℓ})
for_each [] body = pure tt
for_each (x ∷ xs) body = let rest = for_each xs body in body x >> rest
