-- ===== src/TrapReceiver/Naming.antt =====
-- The row that trap-receiver/handler.go stores, and the name that internal/snmp/trapnames.go shows of it.
use beacon_v.Prelude.{
  ℕ, zero, suc, ◌≤◌, String, Option, List, [], ◌∷◌, ◌++◌, ℤ, pos, Option-cases, inl, inr, ◌≡◌, refl,
  ap, arith,
}
use beacon_v.Exec.{Result, ok, or_fail}
use beacon_v.Exec.Ensures.{Post, Ensures, Ensures-bind, Ensures-lift, Ensures-given, Ensures-pure}
use beacon_v.World.{Error, version1, World, Env}
use beacon_v.Snmp.TrapNames.{trap_name}
use beacon_v.Store.{timed, statement}
use beacon_v.Store.Traps
use beacon_v.Store.Traps.{Trap, trap_row}
use beacon_v.TrapReceiver.{
  Packet, Varbind, received, encode_varbinds, handle_trap, extract_trap_oid, generic_oid,
  or_specific,
}

-- RFC 1157, section 4.1.6: the generic traps, by their number.
abbrev pub generic_name : ℕ → String
generic_name zero = "ColdStart"
generic_name (suc zero) = "WarmStart"
generic_name (suc (suc zero)) = "LinkDown"
generic_name (suc (suc (suc zero))) = "LinkUp"
generic_name (suc (suc (suc (suc zero)))) = "AuthenticationFailure"
generic_name (suc (suc (suc (suc (suc n))))) = "EgpNeighborLoss"

generic_oid-name :
    (n : ℕ) (enterprise : String) (specific : ℤ)
    → n ≤ 5
    → trap_name (or_specific (generic_oid n) enterprise specific) ≡ generic_name n
unfolding trap_name
generic_oid-name zero e s h = refl
generic_oid-name (suc zero) e s h = refl
generic_oid-name (suc (suc zero)) e s h = refl
generic_oid-name (suc (suc (suc zero))) e s h = refl
generic_oid-name (suc (suc (suc (suc zero)))) e s h = refl
generic_oid-name (suc (suc (suc (suc (suc zero))))) e s h = refl
generic_oid-name (suc (suc (suc (suc (suc (suc n)))))) e s h = absurd (omega arith)

pub generic-name :
    (p : Packet) (n : ℕ)
    → p.version ≡ version1
    → p.generic_trap ≡ pos n
    → n ≤ 5
    → trap_name (extract_trap_oid p) ≡ generic_name n
unfolding extract_trap_oid
generic-name p n v1 g h = rw (v1, g) (generic_oid-name n p.enterprise p.specific_trap h)

module _ (env : Env) (utf8_text : List ℕ → Option String) (hex_text : List ℕ → String)
    (marshal : List Varbind → Result Error String) where
  -- A packet that is handled without an error adds one row, behind the others.
  pub record Stored (p : Packet) (source : String) (w v : World) : Type 0 where
    pub payload : String
    pub encoded : encode_varbinds env utf8_text hex_text marshal p.variables ≡ ok payload
    pub rows :
        v.traps
        ≡ w.traps
          ++ trap_row
              (received env utf8_text hex_text marshal p source payload)
              w.next_trap
              (env.now w.ticks)
            ∷ []

  insert-Ensures :
      (t : Trap) (w : World)
      → Ensures
          (λ v. v ≡ w)
          (Traps.insert env t)
          (λ _ v. v.traps ≡ w.traps ++ trap_row t w.next_trap (env.now w.ticks) ∷ [])
          (λ v. v.traps ≡ w.traps)
  unfolding Traps.insert timed or_fail
  insert-Ensures t w = record {
    after = λ v same. elim (Option-cases (env.fault w.ticks)) [
      | inl works ↦
          rw (same, works, statement)
            (ap (λ u. u.traps ++ trap_row t u.next_trap (env.now u.ticks) ∷ []) same)
      | inr (failure, fails) ↦ rw (same, fails, statement) (ap (λ u. u.traps) same)
    ];
  }

  handle_trap-Ensures :
      (p : Packet) (source : String) (w : World)
      → Ensures
          (λ v. v ≡ w)
          (handle_trap env utf8_text hex_text marshal p source)
          (λ _. Stored p source w)
          (λ v. v.traps ≡ w.traps)
  unfolding handle_trap
  handle_trap-Ensures p source w =
      Ensures-bind
        (λ payload v.
          (v ≡ w) × (encode_varbinds env utf8_text hex_text marshal p.variables ≡ ok payload))
        _ _
        (Ensures-lift _ (λ payload encoded v same. (same, encoded))
          (λ v same. ap (λ x. x.traps) same))
        λ payload. Ensures-given _ λ encoded. Ensures-bind _ _ _ (insert-Ensures _ w) λ id.
          Ensures-pure tt λ v rows. record { payload = payload; encoded = encoded; rows = rows }

  -- A packet that is handled adds one row behind the others; one that is not adds none.
  pub handle_trap-Post :
      (p : Packet) (source : String) (w : World)
      → Post
          (λ _. Stored p source w)
          (λ v. v.traps ≡ w.traps)
          (handle_trap env utf8_text hex_text marshal p source w).0
          (handle_trap env utf8_text hex_text marshal p source w).1
  handle_trap-Post p source w = (handle_trap-Ensures p source w).after w refl

  -- A generic trap of SNMPv1 is stored under an identifier that is shown by its standard name.
  pub received-name :
      (p : Packet) (source payload : String) (n : ℕ)
      → p.version ≡ version1
      → p.generic_trap ≡ pos n
      → n ≤ 5
      → trap_name (received env utf8_text hex_text marshal p source payload).oid ≡ generic_name n
  received-name p source payload n = generic-name p n
