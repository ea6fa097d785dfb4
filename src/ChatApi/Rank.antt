-- ===== src/ChatApi/Rank.antt =====
-- The ranking of toolRankDevices in chat-api/tools.go: the two nested loops that order the results.
pub mod Falling
use beacon_v.Prelude.{ℕ, zero, suc, String, Bool, List, [], ◌∷◌, length, if◌then◌else◌}
use beacon_v.ChatApi.Float.{Float}

pub record Ranked (F : Type 0) : Type 0 where
  pub device : String
  pub value : F

module _ {F : Type 0} (fl : Float F) where
  abbrev pub above : Ranked F → Ranked F → Bool
  above x y = fl.lt y.value x.value

  -- The inner loop: `top` stands at position i and the list at the positions j after it; an entry with
  -- a larger value changes places with position i.
  unfoldable pub settle : Ranked F → List (Ranked F) → Ranked F × List (Ranked F)
  settle top [] = (top, [])
  settle top (r ∷ rs) =
      let swap = above r top in
      let (winner, rest) = settle (if swap then r else top) rs in
      (winner, (if swap then top else r) ∷ rest)

  -- The outer loop, over the positions that are left.
  unfoldable pub rank_from : ℕ → List (Ranked F) → List (Ranked F)
  unfolding settle
  rank_from zero rs = rs
  rank_from (suc n) [] = []
  rank_from (suc n) (r ∷ rs) = let (winner, rest) = settle r rs in winner ∷ rank_from n rest

  unfoldable pub rank : List (Ranked F) → List (Ranked F)
  unfolding rank_from
  rank rs = rank_from (length rs) rs
