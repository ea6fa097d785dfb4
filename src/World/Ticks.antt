-- ===== src/World/Ticks.antt =====
-- Calls of the outside world change nothing but the count of calls.
use beacon_v.Prelude.{ℕ, Option}
use beacon_v.Exec.Keeps.{Keeps}
use beacon_v.World.{Error, World, call, tick}

-- A predicate that counting calls does not change.
abbrev pub IgnoresTicks {ℓ} : (World → Type ℓ) → Type ℓ
IgnoresTicks P = (w : World) → P w → P (tick w)

pub call-keeps :
    {P : World → Type 0} → IgnoresTicks P → (answer : ℕ → Option Error) → Keeps P (call answer)
unfolding call
call-keeps ignores answer = record { after = λ w h. ignores w h }
