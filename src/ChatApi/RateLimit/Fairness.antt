-- ===== src/ChatApi/RateLimit/Fairness.antt =====
-- The limiter of chat-api/ratelimit.go refuses a call only if the limit is reached in the window before it.
use beacon_v.Prelude.{
  ℕ, ◌+◌, ◌≤◌, String, Bool, true, false, ◌&&◌, List, [], ◌∷◌, ◌++◌, ◌==◌, ltb, leb, length, keep,
  if◌then◌else◌, append_assoc, append-nil, ◌≡◌, refl, ap, ◌∙◌, arith, eq_iff, eq_refl, Bool-cases,
  inl, inr,
}
use beacon_v.ChatApi.RateLimit.{RateLimiter, new_rate_limiter, is_recent, recent, allow}
use beacon_v.ChatApi.RateLimit.Window.{
  Call, added, served, Tracks, Tracks-denied, Tracks-allowed, Tracks-other, recent-length,
}

-- The time of the last call.
unfoldable pub clock : ℕ → List Call → ℕ
clock now [] = now
clock now ((who, gap) ∷ calls) = clock (now + gap) calls

-- What one more call at `at` adds to the times of `history`.
abbrev pub next_served : ℕ → ℕ → List ℕ → ℕ → List ℕ
next_served window limit history at =
    if ltb (length (keep (is_recent window at) history)) limit then at ∷ [] else []

added-append : (b : Bool) (t : ℕ) (xs ys : List ℕ) → added b t (xs ++ ys) ≡ added b t xs ++ ys
added-append true t xs ys = refl
added-append false t xs ys = refl

append-added : (b : Bool) (t : ℕ) (h xs : List ℕ) → (h ++ added b t []) ++ xs ≡ h ++ added b t xs
append-added true t h xs = append_assoc h (t ∷ []) xs
append-added false t h xs = ap (λ l. l ++ xs) (append-nil h)

-- A call changes neither the window nor the limit.
allow-window : (rl : RateLimiter) (who : String) (now : ℕ) → (allow rl who now).1.window ≡ rl.window
unfolding allow
allow-window rl who now = elim (Bool-cases (leb rl.limit (length (recent rl who now)))) [
  | inl full ↦ rw full refl
  | inr room ↦ rw room refl
]

allow-rate_limit :
    (rl : RateLimiter) (who : String) (now : ℕ) → (allow rl who now).1.limit ≡ rl.limit
unfolding allow
allow-rate_limit rl who now = elim (Bool-cases (leb rl.limit (length (recent rl who now)))) [
  | inl full ↦ rw full refl
  | inr room ↦ rw room refl
]

module _ (rl : RateLimiter) (ip : String) (last now : ℕ) (history : List ℕ) where
  own_call :
      Tracks rl ip last history
      → last ≤ now
      → Tracks (allow rl ip now).1 ip now (history ++ added (allow rl ip now).0 now [])
  unfolding allow
  own_call h le = elim (Bool-cases (leb rl.limit (length (recent rl ip now)))) [
    | inl full ↦ rw (full, append-nil history) (Tracks-denied rl ip last now history h le)
    | inr room ↦ rw room (Tracks-allowed rl ip last now history h le room)
  ]

  other_call :
      (who : String)
      → (ip == who) ≡ false
      → Tracks rl ip last history
      → last ≤ now
      → Tracks (allow rl who now).1 ip now history
  unfolding allow
  other_call who other h le = elim (Bool-cases (leb rl.limit (length (recent rl who now)))) [
    | inl full ↦ rw full (Tracks-other rl ip last now history who _ other h le)
    | inr room ↦ rw room (Tracks-other rl ip last now history who _ other h le)
  ]

  any_call :
      (who : String)
      → Tracks rl ip last history
      → last ≤ now
      → Tracks
          (allow rl who now).1
          ip
          now
          (history ++ added (ip == who && (allow rl who now).0) now [])
  any_call who h le = elim (Bool-cases (ip == who)) [
    | inl same ↦ let own : ip ≡ who = (eq_iff ip who).0 same in rw (same, ← own) (own_call h le)
    | inr other ↦ rw (other, append-nil history) (other_call who other h le)
  ]

  answer :
      Tracks rl ip last history
      → last ≤ now
      → added (ip == ip && (allow rl ip now).0) now [] ≡ next_served rl.window rl.limit history now
  unfolding allow
  answer h le = elim (Bool-cases (leb rl.limit (length (recent rl ip now)))) [
    | inl full ↦ rw (full, eq_refl ip) (ground (arith, recent-length rl ip last now history h le))
    | inr room ↦ rw (room, eq_refl ip) (ground (arith, recent-length rl ip last now history h le))
  ]

served-next :
    (calls : List Call) (rl : RateLimiter) (ip : String) (last gap : ℕ) (history : List ℕ)
    → Tracks rl ip last history
    → served rl ip last (calls ++ (ip, gap) ∷ [])
      ≡ served rl ip last calls
        ++ next_served rl.window rl.limit
            (history ++ served rl ip last calls)
            (clock last calls + gap)
unfolding served clock
served-next [] rl ip last gap history h =
    rw (append-nil history) (answer rl ip last (last + gap) history h (omega arith))
served-next ((who, step) ∷ calls) rl ip last gap history h =
    let now = last + step in
    let b : Bool = ip == who && (allow rl who now).0 in
    let rl' = (allow rl who now).1 in
    let ih =
      served-next calls rl' ip now gap (history ++ added b now [])
        (any_call rl ip last now history who h (omega arith)) in
    let same =
      rw
        (
          allow-window rl who now,
          allow-rate_limit rl who now,
          append-added b now history (served rl' ip now calls),
        )
        at ih in
    ap (added b now) same ∙ added-append b now (served rl' ip now calls) _

-- After any sequence of calls of all addresses to a new limiter, one more call of an address is served
-- exactly if fewer than `limit` of the times at which it was served lie in the window before it.
pub allow-next :
    (limit window : ℕ) (ip : String) (calls : List Call) (gap : ℕ)
    → let rl = new_rate_limiter limit window in
      let before = served rl ip 0 calls in
      served rl ip 0 (calls ++ (ip, gap) ∷ [])
      ≡ before ++ next_served window limit before (clock 0 calls + gap)
allow-next limit window ip calls gap =
    served-next calls (new_rate_limiter limit window) ip 0 gap []
      (record { same = λ _ _. refl; bounded = λ _. omega arith })
