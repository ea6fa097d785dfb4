-- ===== src/ChatApi/Float.antt =====
-- All that chat-api does with a `float64`: the arithmetic is the machine's, and so a parameter.
use beacon_v.Prelude.{ℕ, String, Bool}

pub record Float (F : Type 0) : Type 0 where
  pub of_nat : ℕ → F
  pub le : F → F → Bool
  pub lt : F → F → Bool
  pub times : F → F → F
  pub over : F → F → F
  -- `%g`.
  pub show : F → String
  -- `time.Duration(h * float64(time.Hour))`, in nanoseconds; the hours are
  -- positive where it is used.
  pub hours_duration : F → ℕ
  -- Neither infinite nor NaN: what JSON can write.
  pub is_finite : F → Bool
