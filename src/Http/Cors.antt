-- ===== src/Http/Cors.antt =====
-- `withCORS` of the main.go files: what the wrapped handler does to the state.
use beacon_v.Prelude.{String, ◌==◌, Bool-cases, inl, inr}
use beacon_v.Http.{Request, Reply, with_cors}

module _ {B S : Type 0} (methods : String) (nothing : B) (next : Request → S → Reply B × S) where
  pub with_cors-keeps :
      (P : S → Type 0) (r : Request) (s : S)
      → P s
      → P (next r s).1
      → P (with_cors methods nothing next r s).1
  unfolding with_cors
  with_cors-keeps P r s before after = elim (Bool-cases (r.method == "OPTIONS")) [
    | inl preflight ↦ rw preflight before
    | inr other ↦ rw other after
  ]
