-- ===== src/Http.antt =====
-- The HTTP side that the main.go files of config-api and chat-api share: withCORS, and what
-- they use of net/http's ServeMux. A path is given by its segments, after the mux has cleaned and
-- unescaped it; the reply is what the program's own code writes, before net/http adds headers or
-- drops the body of a HEAD request.
pub mod Cors
pub mod Routes
pub mod Writes
use beacon_v.Prelude.{
  ℕ, String, Bool, true, false, ◌&&◌, ◌||◌, Option, none, some, List, [], ◌∷◌, ◌++◌, ◌==◌,
  if◌then◌else◌,
}

pub record Request : Type 0 where
  pub method : String
  pub path : List String
  -- `r.URL.Query().Get`.
  pub query : String → String
  pub remote_addr : String
  pub body : String

pub record Reply (B : Type 0) : Type 0 where
  pub headers : List (String × String)
  pub status : ℕ
  pub body : B

pub data Segment : Type 0 where
  literal : String → Segment
  wildcard : Segment

-- A pattern such as "GET /devices/{id}".
pub record Pattern : Type 0 where
  pub method : String
  pub segments : List Segment

-- A pattern for GET matches HEAD too.
abbrev pub allows : String → String → Bool
allows pattern method = (pattern == method) || ((pattern == "GET") && (method == "HEAD"))

-- A wildcard matches one segment, which is not empty.
abbrev pub fits : Segment → String → Bool
fits (literal s) t = s == t
fits wildcard t = if t == "" then false else true

unfoldable pub fits_path : List Segment → List String → Bool
fits_path [] [] = true
fits_path (s ∷ ss) (t ∷ ts) = fits s t && fits_path ss ts
fits_path _ _ = false

unfoldable pub matches : String → List String → Pattern → Bool
unfolding fits_path
matches method path p = allows p.method method && fits_path p.segments path

-- `r.PathValue`, for patterns with at most one wildcard.
unfoldable pub path_value : List Segment → List String → String
path_value (literal _ ∷ ss) (_ ∷ ts) = path_value ss ts
path_value (wildcard ∷ _) (t ∷ _) = t
path_value _ _ = ""

-- What the mux makes of a request: the entry of the matching pattern with its path value, or its own
-- answer, 405 where a pattern for another method has the path and 404 where none has it.
pub data Route (A : Type 0) : Type 0 where
  found : A → String → Route A
  wrong_method : Route A
  no_route : Route A

module _ {A : Type 0} where
  unfoldable pub known_path : List String → List (Pattern × A) → Bool
  unfolding fits_path
  known_path path [] = false
  known_path path ((p, _) ∷ routes) = fits_path p.segments path || known_path path routes

  abbrev pub unmatched : Bool → Route A
  unmatched known = if known then wrong_method else no_route

  unfoldable pub first_match : String → List String → List (Pattern × A) → Option (A × String)
  unfolding matches path_value
  first_match method path [] = none
  first_match method path ((p, a) ∷ routes) =
      let rest = first_match method path routes in
      if matches method path p then some (a, path_value p.segments path) else rest

  abbrev pub routed : Option (A × String) → Bool → Route A
  routed (some (a, value)) known = found a value
  routed none known = unmatched known

  unfoldable pub route : String → List String → List (Pattern × A) → Route A
  unfolding first_match known_path
  route method path routes = routed (first_match method path routes) (known_path path routes)

-- `withCORS`: three headers, and a preflight request goes no further.
abbrev pub cors_headers : String → List (String × String)
cors_headers methods =
    ("Access-Control-Allow-Origin", "*")
    ∷ ("Access-Control-Allow-Methods", methods)
    ∷ ("Access-Control-Allow-Headers", "Content-Type")
    ∷ []

abbrev add_headers : {B S : Type 0} → List (String × String) → Reply B × S → Reply B × S
add_headers hs x = (record (x.0) { headers = hs ++ x.0.headers }, x.1)

unfoldable pub with_cors :
    {B S : Type 0} → String → B → (Request → S → Reply B × S) → Request → S → Reply B × S
with_cors methods nothing next r s =
    if r.method == "OPTIONS"
    then (record { headers = cors_headers methods; status = 204; body = nothing }, s)
    else add_headers (cors_headers methods) (next r s)
