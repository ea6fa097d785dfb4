-- ===== src/ChatApi/Rank/Falling.antt =====
-- The nested loops of toolRankDevices in chat-api/tools.go order the devices by value.
use mathlib.Core.List.{Perm}
use mathlib.Core.List.Perm
use beacon_v.Prelude.{
  ℕ, zero, suc, ◌≤◌, Bool, true, false, List, [], ◌∷◌, length, All, if◌then◌else◌, ◌≡◌, refl, arith,
  Bool-cases, inl, inr,
}
use beacon_v.ChatApi.Float.{Float}
use beacon_v.ChatApi.Rank.{Ranked, above, settle, rank_from, rank}

-- IEEE 754: on the values that are neither infinite nor NaN, `<` is a strict weak order.
pub record IsOrdered {F : Type 0} (fl : Float F) : Type 0 where
  pub lt_asym :
      (x y : F)
      → fl.is_finite x ≡ true
      → fl.is_finite y ≡ true
      → fl.lt x y ≡ true
      → fl.lt y x ≡ false
  pub le_trans :
      (x y z : F)
      → fl.is_finite x ≡ true
      → fl.is_finite y ≡ true
      → fl.is_finite z ≡ true
      → fl.lt x y ≡ false
      → fl.lt y z ≡ false
      → fl.lt x z ≡ false

module _ {F : Type 0} (fl : Float F) where
  abbrev pub Finite : Ranked F → Type 0
  Finite r = fl.is_finite r.value ≡ true

  -- Each value is at least as large as every one behind it.
  abbrev pub IsFalling : List (Ranked F) → Type 0
  IsFalling [] = Unit
  IsFalling (r ∷ rs) = All (λ s. above fl s r ≡ false) rs × IsFalling rs

  settle-All :
      (P : Ranked F → Type 0) (top : Ranked F) (rs : List (Ranked F))
      → P top
      → All P rs
      → P (settle fl top rs).0 × All P (settle fl top rs).1
  unfolding settle
  settle-All P top [] p h = (p, tt)
  settle-All P top (r ∷ rs) p h = elim (Bool-cases (above fl r top)) [
    | inl larger ↦ let ih = settle-All P r rs h.0 h.1 in rw larger (ih.0, (p, ih.1))
    | inr smaller ↦ let ih = settle-All P top rs p h.1 in rw smaller (ih.0, (h.0, ih.1))
  ]

  settle-perm :
      (top : Ranked F) (rs : List (Ranked F))
      → Perm ((settle fl top rs).0 ∷ (settle fl top rs).1) (top ∷ rs)
  unfolding settle
  settle-perm top [] = Perm.rfl
  settle-perm top (r ∷ rs) = elim (Bool-cases (above fl r top)) [
    | inl larger ↦ rw larger (Perm.trans (Perm.swap _ _ _) (Perm.cons top (settle-perm r rs)))
    | inr smaller ↦ rw smaller (
        Perm.trans (Perm.swap _ _ _)
          (Perm.trans (Perm.cons r (settle-perm top rs)) (Perm.swap _ _ _)))
  ]

  module _ (ordered : IsOrdered fl) where
    lt_irrefl : (x : F) → fl.is_finite x ≡ true → fl.lt x x ≡ false
    lt_irrefl x h = elim (Bool-cases (fl.lt x x)) [
      | inl less ↦ ordered.lt_asym x x h h less
      | inr same ↦ same
    ]

    -- What the winner of a pass is to the entries that it leaves.
    abbrev Over : Ranked F → Ranked F → List (Ranked F) → Type 0
    Over entry winner rest =
        (above fl entry winner ≡ false) × All (λ r. above fl r winner ≡ false) rest

    settle-step :
        (b : Bool) (top r : Ranked F) (rs : List (Ranked F))
        → above fl r top ≡ b
        → Finite top
        → Finite r
        → All Finite rs
        → Over r (settle fl r rs).0 (settle fl r rs).1
        → Over top (settle fl top rs).0 (settle fl top rs).1
        → Over top
            (settle fl (if b then r else top) rs).0
            ((if b then top else r) ∷ (settle fl (if b then r else top) rs).1)
    settle-step true top r rs larger p q h after_swap after_none =
        let won = (settle-All Finite r rs q h).0 in
        let beaten = ordered.le_trans _ _ _ won q p after_swap.0 (ordered.lt_asym _ _ p q larger) in
        (beaten, (beaten, after_swap.1))
    settle-step false top r rs smaller p q h after_swap after_none =
        let won = (settle-All Finite top rs p h).0 in
        (after_none.0, (ordered.le_trans _ _ _ won p q after_none.0 smaller, after_none.1))

    settle-Over :
        (top : Ranked F) (rs : List (Ranked F))
        → Finite top
        → All Finite rs
        → Over top (settle fl top rs).0 (settle fl top rs).1
    unfolding settle
    settle-Over top [] p h = (lt_irrefl top.value p, tt)
    settle-Over top (r ∷ rs) p h =
        settle-step (above fl r top) top r rs refl p h.0 h.1 (settle-Over r rs h.0 h.1)
          (settle-Over top rs p h.1)

  length-settle : (top : Ranked F) (rs : List (Ranked F)) → length (settle fl top rs).1 ≡ length rs
  unfolding settle
  length-settle top [] = refl
  length-settle top (r ∷ rs) = omega (arith, length-settle (if above fl r top then r else top) rs)

  rank_from-All :
      (P : Ranked F → Type 0) (n : ℕ) (rs : List (Ranked F)) → All P rs → All P (rank_from fl n rs)
  unfolding rank_from
  rank_from-All P zero rs h = h
  rank_from-All P (suc n) [] h = tt
  rank_from-All P (suc n) (r ∷ rs) h =
      let kept = settle-All P r rs h.0 h.1 in (kept.0, rank_from-All P n (settle fl r rs).1 kept.1)

  rank_from-perm : (n : ℕ) (rs : List (Ranked F)) → Perm (rank_from fl n rs) rs
  unfolding rank_from
  rank_from-perm zero rs = Perm.rfl
  rank_from-perm (suc n) [] = Perm.rfl
  rank_from-perm (suc n) (r ∷ rs) =
      Perm.trans (Perm.cons _ (rank_from-perm n (settle fl r rs).1)) (settle-perm r rs)

  rank_from-IsFalling :
      IsOrdered fl
      → (n : ℕ) (rs : List (Ranked F)) → length rs ≤ n
      → All Finite rs
      → IsFalling (rank_from fl n rs)
  unfolding rank_from
  rank_from-IsFalling ordered zero [] enough h = tt
  rank_from-IsFalling ordered zero (r ∷ rs) enough h = absurd (omega arith)
  rank_from-IsFalling ordered (suc n) [] enough h = tt
  rank_from-IsFalling ordered (suc n) (r ∷ rs) enough h =
      let rest = (settle fl r rs).1 in
      let over = settle-Over ordered r rs h.0 h.1 in
      let finite = settle-All Finite r rs h.0 h.1 in
      (
        rank_from-All _ n rest over.1,
        rank_from-IsFalling ordered n rest (omega (arith, length-settle r rs)) finite.1,
      )

  -- If the order of the finite numbers is that of IEEE 754 and all values are finite, the ranking has
  -- each value before the smaller ones, and consists of the devices and values that it was given,
  -- each as often.
  pub rank-IsFalling :
      IsOrdered fl
      → (rs : List (Ranked F)) → All Finite rs
      → IsFalling (rank fl rs) × Perm (rank fl rs) rs
  unfolding rank
  rank-IsFalling ordered rs h =
      (rank_from-IsFalling ordered (length rs) rs (omega arith) h, rank_from-perm (length rs) rs)
