-- ===== src/Exec/Ensures.antt =====
-- Postconditions that depend on the result: one rule for each way to build stateful code.
use beacon_v.Prelude.{◌≡◌, refl, Bool, true, false, if◌then◌else◌}
use beacon_v.Exec.{
  Result, ok, err, Exec, continue, ◌>>=◌, pure, fail, lift, gets, modify, attempt, or_fail, map_err,
}
use beacon_v.Exec.Keeps.{Keeps}

-- `Q` of the value and the state where the code returns, `R` of the state where it fails.
abbrev pub Post {ℓ} : {S E A : Type ℓ} → (A → S → Type ℓ) → (S → Type ℓ) → Result E A → S → Type ℓ
Post Q R (ok a) s = Q a s
Post Q R (err e) s = R s

module _ {ℓ} {S E A : Type ℓ} (Q : A → S → Type ℓ) (R : S → Type ℓ) where
  Post-weaken :
      (r : Result E A) (s : S) (Q' : A → S → Type ℓ)
      → ((a : A) → Q' a s → Q a s)
      → Post Q' R r s
      → Post Q R r s
  Post-weaken (ok a) s Q' h p = h a p
  Post-weaken (err e) s Q' h p = p

  -- Consequences of both outcomes.
  pub Post-map :
      (Q' : A → S → Type ℓ) (R' : S → Type ℓ) (r : Result E A) (s : S)
      → ((a : A) → Q' a s → Q a s)
      → (R' s → R s)
      → Post Q' R' r s
      → Post Q R r s
  Post-map Q' R' (ok a) s f g p = f a p
  Post-map Q' R' (err e) s f g p = g p

  pub Post-both : (r : Result E A) (s : S) → ((a : A) → Q a s) → R s → Post Q R r s
  Post-both (ok a) s q h = q a
  Post-both (err e) s q h = h

  Post-of : (r : Result E A) (s : S) → ((a : A) → r ≡ ok a → Q a s) → R s → Post Q R r s
  Post-of (ok a) s h k = h a refl
  Post-of (err e) s h k = k

  Post-map_err :
      {D : Type ℓ} (f : E → D) (r : Result E A) (s : S) → Post Q R r s → Post Q R (map_err f r) s
  Post-map_err f (ok a) s h = h
  Post-map_err f (err e) s h = h

-- What both outcomes leave.
pub Post-same {ℓ} :
    {S E A : Type ℓ} (R : S → Type ℓ) (r : Result E A) (s : S) → Post (λ _. R) R r s → R s
Post-same R (ok a) s h = h
Post-same R (err e) s h = h

pub record Ensures {ℓ} {S E A : Type ℓ} (P : S → Type ℓ) (m : Exec S E A) (Q : A → S → Type ℓ)
    (R : S → Type ℓ) : Type ℓ where
  pub after : (s : S) → P s → Post Q R (m s).0 (m s).1

module _ {ℓ} {S E A : Type ℓ} {P : S → Type ℓ} {Q : A → S → Type ℓ} {R : S → Type ℓ} where
  pub Ensures-pure : (a : A) → ((s : S) → P s → Q a s) → Ensures P (pure {E = E} a) Q R
  unfolding pure
  Ensures-pure a h = record { after = h }

  pub Ensures-fail : (e : E) → ((s : S) → P s → R s) → Ensures P (fail {A = A} e) Q R
  unfolding fail
  Ensures-fail e h = record { after = h }

  -- From what a successful run tells.
  pub Ensures-of :
      (m : Exec S E A)
      → ((s : S) → P s → (a : A) → (m s).0 ≡ ok a → Q a (m s).1)
      → ((s : S) → P s → R (m s).1)
      → Ensures P m Q R
  Ensures-of m h k = record { after = λ s p. Post-of Q R (m s).0 (m s).1 (h s p) (k s p) }

  -- What is read, and what a change makes of the state.
  pub Ensures-gets : (f : S → A) → ((s : S) → P s → Q (f s) s) → Ensures P (gets {E = E} f) Q R
  unfolding gets
  Ensures-gets f h = record { after = h }

  pub Ensures-modify :
      (a : A) (f : S → S) → ((s : S) → P s → Q a (f s)) → Ensures P (modify {E = E} a f) Q R
  unfolding modify
  Ensures-modify a f h = record { after = h }

  -- The rest may use that `r` did not fail.
  pub Ensures-lift :
      (r : Result E A)
      → ((a : A) → r ≡ ok a → (s : S) → P s → Q a s)
      → ((s : S) → P s → R s)
      → Ensures P (lift r) Q R
  unfolding lift
  Ensures-lift (ok a) h k = record { after = h a refl }
  Ensures-lift (err e) h k = record { after = k }

  -- A fact that does not depend on the state.
  pub Ensures-given :
      {B : Type ℓ} (m : Exec S E A) → (B → Ensures P m Q R) → Ensures (λ s. P s × B) m Q R
  Ensures-given m h = record { after = λ s p. (h p.1).after s p.0 }

  pub Ensures-if :
      (b : Bool) (m n : Exec S E A)
      → (b ≡ true → Ensures P m Q R)
      → (b ≡ false → Ensures P n Q R)
      → Ensures P (if b then m else n) Q R
  Ensures-if true m n hm hn = hm refl
  Ensures-if false m n hm hn = hn refl

  pub Ensures-weaken :
      (Q' : A → S → Type ℓ) (m : Exec S E A)
      → ((a : A) (s : S) → Q' a s → Q a s)
      → Ensures P m Q' R
      → Ensures P m Q R
  Ensures-weaken Q' m h hm = record {
    after = λ s p. let (r, t) = m s in Post-weaken Q R r t Q' (λ a. h a t) (hm.after s p);
  }

module _ {ℓ} {S E A : Type ℓ} {P R R' : S → Type ℓ} {Q : A → S → Type ℓ} where
  -- A weaker statement of what a failure leaves.
  pub Ensures-fails : {m : Exec S E A} → ((s : S) → R s → R' s) → Ensures P m Q R → Ensures P m Q R'
  Ensures-fails {m} f h = record {
    after = λ s p. let (r, t) = m s in Post-map Q R' Q R r t (λ a q. q) (f t) (h.after s p);
  }

module _ {ℓ} {S E A : Type ℓ} {P : S → Type ℓ} where
  pub Ensures-keeps : (m : Exec S E A) → Keeps P m → Ensures P m (λ _ s. P s) P
  Ensures-keeps m km = record {
    after = λ s h. let (r, t) = m s in Post-both _ P r t (λ _. km.after s h) (km.after s h);
  }

  -- What both outcomes leave is kept.
  pub Keeps-ensured : (m : Exec S E A) → Ensures P m (λ _. P) P → Keeps P m
  Keeps-ensured m h = record { after = λ s p. let (r, t) = m s in Post-same P r t (h.after s p) }

module _ {ℓ} {S E D A : Type ℓ} {P R : S → Type ℓ} where
  -- Code that looks at the error of a call does not fail itself.
  pub Ensures-attempted :
      (m : Exec S E A) → Keeps P m → Ensures P (attempt {D = D} m) (λ _ s. P s) R
  unfolding attempt
  Ensures-attempted m km = record { after = km.after }

module _ {ℓ} {S E A B : Type ℓ} {P : A → S → Type ℓ} where
  Post-continue :
      (Q : B → S → Type ℓ) (R : S → Type ℓ) (r : Result E A) (f : A → Exec S E B) (s : S)
      → ((a : A) → Ensures (P a) (f a) Q R)
      → Post P R r s
      → Post Q R (continue r f s).0 (continue r f s).1
  Post-continue Q R (ok a) f s hf h = (hf a).after s h
  Post-continue Q R (err e) f s hf h = h

module _ {ℓ} {S E A B : Type ℓ} {P : S → Type ℓ} {Q : B → S → Type ℓ} {R : S → Type ℓ} where
  pub Ensures-bind :
      (Q' : A → S → Type ℓ) (m : Exec S E A) (f : A → Exec S E B)
      → Ensures P m Q' R
      → ((a : A) → Ensures (Q' a) (f a) Q R)
      → Ensures P (m >>= f) Q R
  unfolding ◌>>=◌
  Ensures-bind Q' m f hm hf = record {
    after = λ s h. let (r, t) = m s in Post-continue Q R r f t hf (hm.after s h);
  }

module _ {ℓ} {S E D A : Type ℓ} {P : S → Type ℓ} {Q : A → S → Type ℓ} {R R' : S → Type ℓ} where
  pub Ensures-attempt :
      (m : Exec S E A) → Ensures P m Q R → Ensures P (attempt {D = D} m) (Post Q R) R'
  unfolding attempt
  Ensures-attempt m hm = record { after = hm.after }

module _ {ℓ} {S E D A : Type ℓ} {P : S → Type ℓ} {Q : A → S → Type ℓ} {R : S → Type ℓ} where
  pub Ensures-or_fail : (f : E → D) (m : Exec S E A) → Ensures P m Q R → Ensures P (or_fail f m) Q R
  unfolding or_fail
  Ensures-or_fail f m hm = record {
    after = λ s h. let (r, t) = m s in Post-map_err Q R f r t (hm.after s h);
  }

module _ {ℓ} {S E A B : Type ℓ} {P : S → Type ℓ} {Q : B → S → Type ℓ} where
  -- `P` stays, and the rest knows `K` of the result.
  pub Ensures-know :
      (K : A → Type ℓ) (m : Exec S E A) (f : A → Exec S E B)
      → Ensures P m (λ a s. P s × K a) P
      → ((a : A) → K a → Ensures P (f a) Q P)
      → Ensures P (m >>= f) Q P
  Ensures-know K m f hm hf =
      Ensures-bind (λ a s. P s × K a) m f hm (λ a. Ensures-given (f a) (hf a))

  pub Ensures-know_lift :
      (r : Result E A) (f : A → Exec S E B)
      → ((a : A) → r ≡ ok a → Ensures P (f a) Q P)
      → Ensures P (lift r >>= f) Q P
  Ensures-know_lift r f hf =
      Ensures-know (λ a. r ≡ ok a) (lift r) f (Ensures-lift r (λ a e s p. (p, e)) (λ s p. p)) hf

  pub Ensures-then :
      (m : Exec S E A) (f : A → Exec S E B)
      → Keeps P m
      → ((a : A) → Ensures P (f a) Q P)
      → Ensures P (m >>= f) Q P
  Ensures-then m f hm hf = Ensures-bind (λ _. P) m f (Ensures-keeps m hm) hf
