-- ===== src/TrapReceiver/Listed.antt =====
-- trap-receiver/handler.go with config-api/handlers/traps.go: a trap that was received is listed.
use mathlib.Core.List.{reverse, reverse-append}
use beacon_v.Prelude.{
  ℕ, zero, suc, String, Option, none, List, [], ◌∷◌, ◌++◌, take, map, ℤ, pos, negsuc, ◌≡◌, refl,
}
use beacon_v.Exec.{Result, ok, ◌>>=◌, or_fail}
use beacon_v.World.{Error, TrapRow, World, Env}
use beacon_v.Store.{statement}
use beacon_v.Store.Traps as StoreTraps
use beacon_v.Store.Traps.{Trap, trap_of, trap_row, effective_limit}
use beacon_v.ConfigApi.{traps, write_json, answer}
use beacon_v.ConfigApi.Traps
use beacon_v.ConfigApi.Traps.{TrapsHandler, limit_from_query}
use beacon_v.TrapReceiver.{Packet, Varbind, encode_varbinds, handle_trap, received}
use beacon_v.TrapReceiver.Naming.{Stored, handle_trap-Post}

effective_limit-positive : (limit : ℤ) → (n : ℕ) × (effective_limit limit ≡ suc n)
effective_limit-positive (pos zero) = (99, refl)
effective_limit-positive (pos (suc n)) = (n, refl)
effective_limit-positive (negsuc n) = (99, refl)

take-latest :
    (n : ℕ) (rows : List TrapRow) (r : TrapRow)
    → take (suc n) (reverse (rows ++ r ∷ [])) ≡ r ∷ take n (reverse rows)
take-latest n rows r = rw (reverse-append rows (r ∷ [])) refl

module _ (env : Env) (th : TrapsHandler) where
  list-works :
      (query : String) (v : World)
      → env.fault v.ticks ≡ none
      → (Traps.list env th query v).0
        ≡ write_json 200 (
            traps (map trap_of (take (effective_limit (limit_from_query query)) (reverse v.traps))))
  unfolding Traps.list StoreTraps.list answer ◌>>=◌ or_fail
  list-works query v works = rw (works, statement) refl

  module _ (utf8_text : List ℕ → Option String) (hex_text : List ℕ → String)
      (marshal : List Varbind → Result Error String) where
    -- The trap that is listed for a packet, and those listed behind it.
    abbrev pub listed_trap : Packet → String → World → String → Trap
    listed_trap p source w payload = trap_of (
        trap_row (received env utf8_text hex_text marshal p source payload) w.next_trap
          (env.now w.ticks))

    -- After a packet was handled without an error, GET /traps lists its trap first, and behind it the
    -- latest of the earlier traps, one less than the limit, if the driver does not fail its statement.
    pub handle_trap-listed :
        (p : Packet) (source query : String) (w : World)
        → (handle_trap env utf8_text hex_text marshal p source w).0 ≡ ok tt
        → env.fault (handle_trap env utf8_text hex_text marshal p source w).1.ticks ≡ none
        → (payload : String) × (encode_varbinds env utf8_text hex_text marshal p.variables
            ≡ ok payload)
          × (n : ℕ) × (effective_limit (limit_from_query query) ≡ suc n)
          × ((Traps.list env th query (handle_trap env utf8_text hex_text marshal p source w).1).0
              ≡ write_json 200
                  (traps (listed_trap p source w payload ∷ map trap_of (take n (reverse w.traps)))))
    handle_trap-listed p source query w handled works =
        let v = (handle_trap env utf8_text hex_text marshal p source w).1 in
        let stored : Stored env utf8_text hex_text marshal p source w v =
          rw handled at (handle_trap-Post env utf8_text hex_text marshal p source w) in
        let row =
          trap_row (received env utf8_text hex_text marshal p source stored.payload) w.next_trap
            (env.now w.ticks) in
        let (n, positive) = effective_limit-positive (limit_from_query query) in
        (
          stored.payload,
          stored.encoded,
          n,
          positive,
          rw (list-works query v works, positive, stored.rows, take-latest n w.traps row) refl,
        )
