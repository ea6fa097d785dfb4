-- ===== src/Exec/Keeps.antt =====
-- Invariants of stateful code: one rule for each way to build it.
use beacon_v.Prelude.{◌≡◌, refl, Bool, true, false, if◌then◌else◌, List, [], ◌∷◌}
use beacon_v.Exec.{
  Result, ok, err, Exec, continue, ◌>>=◌, pure, fail, lift, gets, modify, attempt, or_fail,
  for_each,
}

-- The state that `m` leaves has `P` if the state before has it, whether `m` returns or fails.
pub record Keeps {ℓ} {S E A : Type ℓ} (P : S → Type ℓ) (m : Exec S E A) : Type ℓ where
  pub after : (s : S) → P s → P (m s).1

module _ {ℓ} {S E A : Type ℓ} {P : S → Type ℓ} where
  pub Keeps-pure : (a : A) → Keeps P (pure {E = E} a)
  unfolding pure
  Keeps-pure a = record { after = λ s h. h }

  pub Keeps-fail : (e : E) → Keeps P (fail {A = A} e)
  unfolding fail
  Keeps-fail e = record { after = λ s h. h }

  pub Keeps-lift : (r : Result E A) → Keeps P (lift r)
  unfolding lift
  Keeps-lift r = record { after = λ s h. h }

  pub Keeps-gets : (f : S → A) → Keeps P (gets {E = E} f)
  unfolding gets
  Keeps-gets f = record { after = λ s h. h }

  pub Keeps-modify : (a : A) (f : S → S) → ((s : S) → P s → P (f s)) → Keeps P (modify {E = E} a f)
  unfolding modify
  Keeps-modify a f h = record { after = h }

  pub Keeps-if :
      (test : Bool) (chosen other : Exec S E A)
      → (test ≡ true → Keeps P chosen)
      → (test ≡ false → Keeps P other)
      → Keeps P (if test then chosen else other)
  Keeps-if true chosen other hy hn = hy refl
  Keeps-if false chosen other hy hn = hn refl

module _ {ℓ} {S E A B : Type ℓ} {P : S → Type ℓ} where
  Keeps-continue :
      (r : Result E A) (f : A → Exec S E B) → ((a : A) → Keeps P (f a)) → Keeps P (continue r f)
  Keeps-continue (ok a) f kf = kf a
  Keeps-continue (err e) f kf = record { after = λ s h. h }

  pub Keeps-bind :
      (first : Exec S E A) (rest : A → Exec S E B)
      → Keeps P first
      → ((a : A) → Keeps P (rest a))
      → Keeps P (first >>= rest)
  unfolding ◌>>=◌
  Keeps-bind first rest kept keep = record {
    after = λ s h. let (r, t) = first s in (Keeps-continue r rest keep).after t (kept.after s h);
  }

module _ {ℓ} {S E D A : Type ℓ} {P : S → Type ℓ} where
  pub Keeps-attempt : (m : Exec S E A) → Keeps P m → Keeps P (attempt {D = D} m)
  unfolding attempt
  Keeps-attempt m km = record { after = λ s h. km.after s h }

  pub Keeps-or_fail : (f : E → D) (m : Exec S E A) → Keeps P m → Keeps P (or_fail f m)
  unfolding or_fail
  Keeps-or_fail f m km = record { after = λ s h. km.after s h }

module _ {ℓ} {S E A : Type ℓ} {P : S → Type ℓ} where
  pub Keeps-for_each :
      (xs : List A) (body : A → Exec S E (Unit {ℓ}))
      → ((x : A) → Keeps P (body x))
      → Keeps P (for_each xs body)
  unfolding for_each
  Keeps-for_each [] body kb = Keeps-pure tt
  Keeps-for_each (x ∷ xs) body kb = Keeps-bind _ _ (kb x) (λ _. Keeps-for_each xs body kb)

pub ruleset keeps_rules = (
  Keeps-pure, Keeps-fail, Keeps-lift, Keeps-gets, Keeps-if, Keeps-bind, Keeps-attempt,
  Keeps-or_fail, Keeps-for_each,
)
