-- ===== src/Store/Traps.antt =====
-- internal/store/traps.go: the table `traps`.
use mathlib.Core.List.{reverse}
use beacon_v.Prelude.{ℕ, zero, suc, String, some, List, [], ◌∷◌, ◌++◌, take, map, ℤ, pos, negsuc}
use beacon_v.Exec.{ok, pure, ◌>>=◌, or_fail}
use beacon_v.World.{wrap, TrapRow, Env, Go}
use beacon_v.Store.{statement, timed, value}

pub record Trap : Type 0 where
  pub id : ℕ
  pub source_ip : String
  pub oid : String
  pub payload : String
  pub community : String
  pub agent_address : String
  pub received_at : String

-- COALESCE(community, ''), COALESCE(agent_address, '').
abbrev pub trap_of : TrapRow → Trap
trap_of r = record {
  id = r.id;
  source_ip = r.source_ip;
  oid = r.oid;
  payload = r.payload;
  community = value r.community;
  agent_address = value r.agent_address;
  received_at = r.received_at;
}

abbrev pub trap_row : Trap → ℕ → String → TrapRow
trap_row t id now = record {
  id = id;
  source_ip = t.source_ip;
  oid = t.oid;
  payload = t.payload;
  community = some t.community;
  agent_address = some t.agent_address;
  received_at = now;
}

-- A limit that is not positive is 100.
abbrev pub effective_limit : ℤ → ℕ
effective_limit (pos zero) = 100
effective_limit (pos (suc n)) = suc n
effective_limit (negsuc n) = 100

abbrev pub insert_body : Trap → String → Go ℕ
insert_body t now w = (
  ok w.next_trap,
  record w { traps = w.traps ++ trap_row t w.next_trap now ∷ []; next_trap = suc w.next_trap },
)

module _ (env : Env) where
  unfoldable pub insert : Trap → Go ℕ
  unfolding timed
  insert t = or_fail (wrap "store: inserting trap") (timed env (insert_body t))

  -- ORDER BY id DESC LIMIT ?
  unfoldable pub list : ℤ → Go (List Trap)
  unfolding statement
  list limit = do
    rows ←
        or_fail (wrap "store: listing traps")
          (statement env (λ w. (ok (take (effective_limit limit) (reverse w.traps)), w)))
    pure (map trap_of rows)
