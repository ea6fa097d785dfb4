-- ===== src/Http/Writes.antt =====
-- Which entries of a route table a method that does not write can reach.
use beacon_v.Prelude.{
  Option, none, some, String, Bool, true, false, not, ◌&&◌, ◌||◌, List, [], ◌∷◌, ◌==◌, ◌≡◌, arith,
  Bool-cases, inl, inr, and-parts, eq_refl,
}
use beacon_v.Http.{
  Route, found, first_match, route, routed, unmatched, Pattern, allows, fits_path, matches,
}
use beacon_v.Http.Routes.{allows-cases}

-- Whether each entry of a list is good, or has a method of its own among those that write.
module _ {A : Type 0} (good : A → Bool) (writing : String → Bool) where
  unfoldable pub fit_writes : List (Pattern × A) → Bool
  fit_writes [] = true
  fit_writes ((p, e) ∷ rest) =
      (good e || (writing p.method && not (p.method == "GET"))) && fit_writes rest

  abbrev pub GoodEntry : Option (A × String) → Type 0
  GoodEntry none = Unit {0}
  GoodEntry (some (e, value)) = good e ≡ true

  abbrev pub GoodRoute : Route A → Type 0
  GoodRoute (found e value) = good e ≡ true
  GoodRoute _ = Unit {0}

  entry-good :
      (p : Pattern) (e : A) (method : String)
      → (good e || (writing p.method && not (p.method == "GET"))) ≡ true
      → allows p.method method ≡ true
      → writing method ≡ false
      → good e ≡ true
  entry-good p e method fit allowed reads = elim (allows-cases p.method method allowed) [
    | inl same ↦ let reads' : writing p.method ≡ false = rw same reads in ground arith
    | inr (get, head) ↦
        let is_get : (p.method == "GET") ≡ true = rw get (eq_refl "GET") in ground arith
  ]

  first_match-Good :
      (method : String) (path : List String) (routes : List (Pattern × A))
      → fit_writes routes ≡ true
      → writing method ≡ false
      → GoodEntry (first_match method path routes)
  unfolding first_match fit_writes matches
  first_match-Good method path [] fit reads = tt
  first_match-Good method path ((p, e) ∷ rest) fit reads =
      let (here, later) =
        and-parts (good e || (writing p.method && not (p.method == "GET"))) (fit_writes rest) fit in
      elim (Bool-cases (matches method path p)) [
        | inl m ↦
            let (allowed, fits') =
              and-parts (allows p.method method) (fits_path p.segments path) m in
            rw m (entry-good p e method here allowed reads)
        | inr passed ↦ rw passed (first_match-Good method path rest later reads)
      ]

  unmatched-Good : (known : Bool) → GoodRoute (unmatched known)
  unmatched-Good true = tt
  unmatched-Good false = tt

  routed-Good : (m : Option (A × String)) (known : Bool) → GoodEntry m → GoodRoute (routed m known)
  routed-Good none known h = unmatched-Good known
  routed-Good (some (e, value)) known h = h

  pub route-Good :
      (method : String) (path : List String) (routes : List (Pattern × A))
      → fit_writes routes ≡ true
      → writing method ≡ false
      → GoodRoute (route method path routes)
  unfolding route
  route-Good method path routes fit reads =
      routed-Good _ _ (first_match-Good method path routes fit reads)
