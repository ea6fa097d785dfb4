-- ===== src/Http/Routes.antt =====
-- The choice of a route by net/http's ServeMux, for the patterns of the main.go files.
use beacon_v.Prelude.{
  ◌≤◌, String, Bool, true, false, not, ◌&&◌, ◌||◌, ◌⊎◌, List, [], ◌∷◌, ◌==◌, length, keep, ◌≡◌,
  refl, arith, Bool-cases, inl, inr, and-parts, eq_iff, eq_refl,
}
use beacon_v.Http.{Segment, literal, wildcard, Pattern, allows, fits, fits_path, matches}

-- Two segments that no segment of a path fits both, and two such paths.
abbrev apart : Segment → Segment → Bool
apart (literal s) (literal t) = not (s == t)
apart _ _ = false

paths_apart : List Segment → List Segment → Bool
paths_apart [] [] = false
paths_apart (s ∷ ss) (t ∷ ts) = apart s t || paths_apart ss ts
paths_apart _ _ = true

abbrev methods_apart : String → String → Bool
methods_apart m n = not (allows m n) && not (allows n m)

unfoldable pub patterns_apart : Pattern → Pattern → Bool
unfolding paths_apart
patterns_apart p q = methods_apart p.method q.method || paths_apart p.segments q.segments

apart_from_all : {A : Type 0} → Pattern → List (Pattern × A) → Bool
unfolding patterns_apart
apart_from_all p [] = true
apart_from_all p ((q, _) ∷ rest) = patterns_apart p q && apart_from_all p rest

-- Every two patterns of a list are apart.
unfoldable pub all_apart : {A : Type 0} → List (Pattern × A) → Bool
unfolding apart_from_all
all_apart [] = true
all_apart ((p, _) ∷ rest) = apart_from_all p rest && all_apart rest

literals-apart : (s t u : String) → not (s == t) ≡ true → (s == u) ≡ true → (t == u) ≡ false
literals-apart s t u a h = elim (Bool-cases (t == u)) [
  | inl k ↦
      let first : s ≡ u = (eq_iff s u).0 h in
      let second : t ≡ u = (eq_iff t u).0 k in
      let same : (s == t) ≡ true = rw (first, second) (eq_refl u) in absurd (ground arith)
  | inr k ↦ k
]

apart-fits : (s t : Segment) (u : String) → apart s t ≡ true → fits s u ≡ true → fits t u ≡ false
apart-fits (literal s) (literal t) u a h = literals-apart s t u a h
apart-fits (literal s) wildcard u a h = absurd (cc)
apart-fits wildcard t u a h = absurd (cc)

apart-fits_path :
    (ss ts : List Segment) (path : List String)
    → paths_apart ss ts ≡ true
    → fits_path ss path ≡ true
    → fits_path ts path ≡ false
unfolding paths_apart fits_path
apart-fits_path [] [] path a h = absurd (cc)
apart-fits_path [] (t ∷ ts) [] a h = refl
apart-fits_path [] (t ∷ ts) (u ∷ us) a h = absurd (cc)
apart-fits_path (s ∷ ss) ts [] a h = absurd (cc)
apart-fits_path (s ∷ ss) [] (u ∷ us) a h = refl
apart-fits_path (s ∷ ss) (t ∷ ts) (u ∷ us) a h =
    let (here, later) = and-parts (fits s u) (fits_path ss us) h in
    elim (Bool-cases (apart s t)) [
      | inl now ↦ rw (apart-fits s t u now here) refl
      | inr not_now ↦
          let after : paths_apart ss ts ≡ true = rw not_now at a in
          let rest = apart-fits_path ss ts us after later in ground arith
    ]

pub allows-cases :
    (m used : String) → allows m used ≡ true → (m ≡ used) ⊎ ((m ≡ "GET") × (used ≡ "HEAD"))
allows-cases m used h = elim (Bool-cases (m == used)) [
  | inl same ↦ inl ((eq_iff m used).0 same)
  | inr other ↦
      let as_get : ((m == "GET") && (used == "HEAD")) ≡ true = rw other at h in
      let (get, head) = and-parts (m == "GET") (used == "HEAD") as_get in
      inr ((eq_iff m "GET").0 get, (eq_iff used "HEAD").0 head)
]

allows-same : (m : String) → allows m m ≡ true
allows-same m = rw (eq_refl m) refl

-- Methods that are allowed together are not apart.
allowed_together :
    (m n used : String)
    → allows m used ≡ true
    → allows n used ≡ true
    → (allows m n ≡ true) ⊎ (allows n m ≡ true)
allowed_together m n used h k = elim (allows-cases m used h) [
  | inl same ↦ inr (rw same k)
  | inr (get, head) ↦ elim (allows-cases n used k) [
    | inl same ↦ inl (rw same h)
    | inr (get', head') ↦ inl (rw (get, get') refl)
  ]
]

methods-exclusive :
    (m n used : String) → methods_apart m n ≡ true → allows m used ≡ true → allows n used ≡ false
methods-exclusive m n used a h = elim (Bool-cases (allows n used)) [
  | inr refused ↦ refused
  | inl k ↦ elim (allowed_together m n used h k) [
    | inl one ↦ absurd (ground arith)
    | inr other ↦ absurd (ground arith)
  ]
]

module _ (method : String) (path : List String) where
  pub apart-matches :
      (p q : Pattern)
      → patterns_apart p q ≡ true
      → matches method path p ≡ true
      → matches method path q ≡ false
  unfolding patterns_apart matches
  apart-matches p q a h =
      let (called, path_fits) = and-parts (allows p.method method) (fits_path p.segments path) h in
      elim (Bool-cases (methods_apart p.method q.method)) [
        | inl now ↦ rw (methods-exclusive p.method q.method method now called) refl
        | inr not_now ↦
            let paths : paths_apart p.segments q.segments ≡ true = rw not_now at a in
            let refused = apart-fits_path p.segments q.segments path paths path_fits in ground arith
      ]

  abbrev pub entry_matches : {A : Type 0} → Pattern × A → Bool
  entry_matches (p, a) = matches method path p

  none_else :
      {A : Type 0} (p : Pattern) (routes : List (Pattern × A))
      → apart_from_all p routes ≡ true
      → matches method path p ≡ true
      → length (keep entry_matches routes) ≡ 0
  unfolding apart_from_all
  none_else p [] a h = refl
  none_else p ((q, e) ∷ rest) a h =
      let (here, later) = and-parts (patterns_apart p q) (apart_from_all p rest) a in
      rw (apart-matches p q here h) (none_else p rest later h)

  pub at_most_one :
      {A : Type 0} (routes : List (Pattern × A))
      → all_apart routes ≡ true
      → length (keep entry_matches routes) ≤ 1
  unfolding all_apart
  at_most_one [] a = omega arith
  at_most_one ((p, e) ∷ rest) a =
      let (here, later) = and-parts (apart_from_all p rest) (all_apart rest) a in
      elim (Bool-cases (matches method path p)) [
        | inl chosen ↦ rw chosen (omega (arith, none_else p rest here chosen))
        | inr passed ↦ rw passed (at_most_one rest later)
      ]
