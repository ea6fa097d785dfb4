-- ===== src/Watcher/Periods.antt =====
-- config-watcher/main.go: the periods of the tickers, which time.NewTicker takes only if positive.
use beacon_v.Prelude.{
  ℕ, zero, suc, ◌≤◌, ◌*◌, ◌%◌, Option, none, some, ltb, true, ℤ, pos, negsuc, ◌≡◌, refl, arith,
  String,
}
use beacon_v.Watcher.Loop.{seconds_or, poll_seconds, ticker_period}

seconds_or-positive : (n : ℕ) (o : Option ℤ) → 1 ≤ n → 1 ≤ seconds_or n o
unfolding seconds_or
seconds_or-positive n none h = h
seconds_or-positive n (some (pos zero)) h = h
seconds_or-positive n (some (pos (suc k))) h = omega arith
seconds_or-positive n (some (negsuc k)) h = h

pub poll_seconds-positive : (getenv : String → String) → 1 ≤ poll_seconds getenv
unfolding poll_seconds
poll_seconds-positive getenv = seconds_or-positive 10 _ (omega arith)

-- The product is exact as long as it fits.
pub ticker_period-exact :
    (seconds : ℕ) → seconds ≤ 9223372036 → ticker_period seconds ≡ pos (seconds * 1000000000)
unfolding ticker_period
ticker_period-exact seconds h =
    let exact : (seconds * 1000000000) % 18446744073709551616 ≡ seconds * 1000000000 =
      omega arith in
    let fits : ltb (seconds * 1000000000) 9223372036854775808 ≡ true = ground arith in
    rw (exact, fits) refl

-- A number of seconds that passes the check of main, and a period that NewTicker refuses.
overflow_test : ticker_period 10000000000 ≡ negsuc 8446744073709551615
unfolding ticker_period
overflow_test = refl
