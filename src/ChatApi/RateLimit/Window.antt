-- ===== src/ChatApi/RateLimit/Window.antt =====
-- The limiter of chat-api/ratelimit.go over a sequence of calls: what it serves in any window of time.
use beacon_v.Prelude.{
  ℕ, ◌+◌, ◌≤◌, String, Bool, true, false, ◌&&◌, List, [], ◌∷◌, ◌++◌, ◌==◌, leb, length, keep,
  length-append, if◌then◌else◌, append_assoc, append-nil, ◌≡◌, refl, sym, ap, ◌∙◌, arith, eq_iff,
  eq_refl, Bool-cases, inl, inr,
}
use beacon_v.ChatApi.RateLimit.{RateLimiter, new_rate_limiter, assign, is_recent, recent, allow}

-- A call: who makes it, and how long after the call before.
abbrev pub Call : Type 0
Call = String × ℕ

abbrev pub added : Bool → ℕ → List ℕ → List ℕ
added b t rest = if b then t ∷ rest else rest

-- The times at which requests of `ip` are allowed, `now` being the time of the call before.
unfoldable pub served : RateLimiter → String → ℕ → List Call → List ℕ
unfolding allow
served rl ip now [] = []
served rl ip now ((who, gap) ∷ calls) =
    let (answer, rl') = allow rl who (now + gap) in
    added (ip == who && answer) (now + gap) (served rl' ip (now + gap) calls)

-- The window of length `w` that ends at `at`: after at - w, and not after `at`.
abbrev pub in_window : ℕ → ℕ → ℕ → Bool
in_window w at t = is_recent w at t && leb t at

module _ {A : Type 0} where
  keep-append : (p : A → Bool) (xs ys : List A) → keep p (xs ++ ys) ≡ keep p xs ++ keep p ys
  keep-append p [] ys = refl
  keep-append p (x ∷ xs) ys = ground (arith, keep-append p xs ys)

  keep-keep :
      (p q : A → Bool) (xs : List A)
      → ((x : A) → p x ≡ true → q x ≡ true)
      → keep p (keep q xs) ≡ keep p xs
  keep-keep p q [] h = refl
  keep-keep p q (x ∷ xs) h = ground (arith, h x, keep-keep p q xs h)

  keep_mono :
      (p q : A → Bool) (xs : List A)
      → ((x : A) → p x ≡ true → q x ≡ true)
      → length (keep p xs) ≤ length (keep q xs)
  keep_mono p q [] h = omega arith
  keep_mono p q (x ∷ xs) h = ground (arith, h x, keep_mono p q xs h)

-- `history` has the times at which `ip` was served until `last`.
pub record Tracks (rl : RateLimiter) (ip : String) (last : ℕ) (history : List ℕ) : Type 0 where
  pub same :
      (at : ℕ)
      → last ≤ at
      → keep (is_recent rl.window at) (rl.requests ip) ≡ keep (is_recent rl.window at) history
  pub bounded : (at : ℕ) → length (keep (in_window rl.window at) history) ≤ rl.limit

recent-later : (w now at t : ℕ) → now ≤ at → is_recent w at t ≡ true → is_recent w now t ≡ true
recent-later w now at t h r = ground arith

window-later :
    (w now at t : ℕ)
    → in_window w at now ≡ true
    → in_window w at t ≡ true
    → is_recent w now t ≡ true
window-later w now at t inside e = ground arith

module _ (rl : RateLimiter) (ip : String) (last now : ℕ) (history : List ℕ) where
  abbrev times : List ℕ
  times = recent rl ip now

  recent-same :
      Tracks rl ip last history
      → last ≤ now
      → (at : ℕ) → now ≤ at
      → keep (is_recent rl.window at) times ≡ keep (is_recent rl.window at) history
  unfolding recent
  recent-same h le at later =
      keep-keep (is_recent rl.window at) (is_recent rl.window now) (rl.requests ip)
        (λ t. recent-later rl.window now at t later)
      ∙ h.same at (omega arith)

  pub recent-length :
      Tracks rl ip last history
      → last ≤ now
      → length times ≡ length (keep (is_recent rl.window now) history)
  unfolding recent
  recent-length h le = ap length (h.same now le)

  served-bounded :
      Tracks rl ip last history
      → last ≤ now
      → leb rl.limit (length times) ≡ false
      → (at : ℕ) → length (keep (in_window rl.window at) (history ++ now ∷ [])) ≤ rl.limit
  served-bounded h le below at =
      rw
        (
          keep-append (in_window rl.window at) history (now ∷ []),
          length-append (keep (in_window rl.window at) history)
              (keep (in_window rl.window at) (now ∷ [])),
        )
        (elim (Bool-cases (in_window rl.window at now)) [
          | inl inside ↦
              let fewer =
                keep_mono (in_window rl.window at) (is_recent rl.window now) history
                  (λ t e. window-later rl.window now at t inside e) in
              rw inside (ground (arith, fewer, recent-length h le))
          | inr outside ↦ rw outside (omega (arith, h.bounded at))
        ])

  pub Tracks-denied :
      Tracks rl ip last history
      → last ≤ now
      → Tracks (record rl { requests = assign rl.requests ip times }) ip now history
  Tracks-denied h le = record {
    same = λ at later. rw (eq_refl ip) (recent-same h le at later);
    bounded = h.bounded;
  }

  pub Tracks-allowed :
      Tracks rl ip last history
      → last ≤ now
      → leb rl.limit (length times) ≡ false
      → Tracks
          (record rl { requests = assign rl.requests ip (times ++ now ∷ []) })
          ip
          now
          (history ++ now ∷ [])
  Tracks-allowed h le below = record {
    same = λ at later.
        rw
          (
            eq_refl ip,
            keep-append (is_recent rl.window at) times (now ∷ []),
            keep-append (is_recent rl.window at) history (now ∷ []),
            recent-same h le at later,
          )
          refl;
    bounded = served-bounded h le below;
  }

  -- Calls of other addresses change nothing for `ip`.
  pub Tracks-other :
      (who : String) (ts : List ℕ)
      → (ip == who) ≡ false
      → Tracks rl ip last history
      → last ≤ now
      → Tracks (record rl { requests = assign rl.requests who ts }) ip now history
  Tracks-other who ts other h le = record {
    same = λ at later. rw other (h.same at (omega arith));
    bounded = h.bounded;
  }

served-within :
    (calls : List Call) (rl : RateLimiter) (ip : String) (last : ℕ) (history : List ℕ)
    → Tracks rl ip last history
    → (at : ℕ)
    → length (keep (in_window rl.window at) (history ++ served rl ip last calls)) ≤ rl.limit
unfolding allow served
served-within [] rl ip last history h at = rw (append-nil history) (h.bounded at)
served-within ((who, gap) ∷ calls) rl ip last history h at =
    let now = last + gap in
    let le : last ≤ now = omega arith in
    let ts = recent rl who now in
    elim (Bool-cases (leb rl.limit (length ts))) [
      | inl full ↦
          let rl' = record rl { requests = assign rl.requests who ts } in
          rw full (elim (Bool-cases (ip == who)) [
            | inl same ↦
                let own : who ≡ ip = sym ((eq_iff ip who).0 same) in
                rw (same, own)
                  (served-within calls
                    (record rl { requests = assign rl.requests ip (recent rl ip now) }) ip now
                    history (Tracks-denied rl ip last now history h le) at)
            | inr other ↦ rw other (
                served-within calls rl' ip now history
                  (Tracks-other rl ip last now history who ts other h le) at)
          ])
      | inr room ↦
          let rl' = record rl { requests = assign rl.requests who (ts ++ now ∷ []) } in
          rw room (elim (Bool-cases (ip == who)) [
            | inl same ↦
                let own : who ≡ ip = sym ((eq_iff ip who).0 same) in
                let rest =
                  served-within calls
                    (record rl { requests = assign rl.requests ip (recent rl ip now ++ now ∷ []) })
                    ip now (history ++ now ∷ [])
                    (Tracks-allowed rl ip last now history h le (rw own at room)) at in
                rw (same, own) (rw (append_assoc history (now ∷ [])) at rest)
            | inr other ↦ rw other (
                served-within calls rl' ip now history
                  (Tracks-other rl ip last now history who (ts ++ now ∷ []) other h le) at)
          ])
    ]

-- In any interval as long as the window, whatever the calls of all addresses, a fresh limiter serves
-- at most `limit` requests of an address.
pub allow-limit :
    (limit window : ℕ) (ip : String) (calls : List Call) (at : ℕ)
    → length (keep (in_window window at) (served (new_rate_limiter limit window) ip 0 calls))
      ≤ limit
allow-limit limit window ip calls at =
    served-within calls (new_rate_limiter limit window) ip 0 []
      (record { same = λ _ _. refl; bounded = λ _. omega arith }) at
