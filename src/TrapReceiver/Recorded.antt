-- ===== src/TrapReceiver/Recorded.antt =====
-- trap-receiver/handler.go: which row a packet leaves, field by field.
use beacon_v.Prelude.{
  ℕ, ◌≤◌, String, Option, none, some, List, [], ◌∷◌, ◌++◌, pos, itoa, trim_dot, ◌<>◌, ◌≡◌, ◌≢◌, All,
}
use beacon_v.Exec.{Result, ok}
use beacon_v.World.{Error, version1, Pdu, PduValue, text, bytes, TrapRow, World, Env}
use beacon_v.Snmp.TrapNames.{trap_name}
use beacon_v.TrapReceiver.{Packet, Varbind}
use beacon_v.TrapReceiver.Naming.{generic_name}

-- RFC 3416, section 4.2.6: snmpTrapOID.0 holds the trap's identifier.
abbrev pub HoldsNoOid : Pdu → Type 0
HoldsNoOid v = v.name ≡ ".1.3.6.1.6.3.1.1.4.1.0" → (s : String) → v.value ≢ text s

-- The identifier is that of the first variable that holds one, and empty if there is none.
pub data TrapOid (vars : List Pdu) (oid : String) : Type 0 where
  held :
      (before after : List Pdu) (v : Pdu)
      → vars ≡ before ++ v ∷ after
      → v.name ≡ ".1.3.6.1.6.3.1.1.4.1.0"
      → v.value ≡ text oid
      → All HoldsNoOid before
      → TrapOid vars oid
  missing : All HoldsNoOid vars → oid ≡ "" → TrapOid vars oid

-- SNMPv1 has its agent's address in the message, and identifies the traps of an enterprise by number.
abbrev pub enterprise_oid : Packet → ℕ → String
enterprise_oid p n = trim_dot p.enterprise <> "." <> itoa n

module _ (utf8_text : List ℕ → Option String) (hex_text : List ℕ → String) where
  -- Bytes are shown as their text, or in hexadecimal digits if they have none; others as they are.
  abbrev pub Shows : PduValue → PduValue → Type 0
  Shows (bytes b) x =
      ((s : String) → utf8_text b ≡ some s → x ≡ text s)
      × (utf8_text b ≡ none → x ≡ text (hex_text b))
  Shows v x = x ≡ v

  -- One entry for each variable, in order.
  abbrev pub Encodes : List Pdu → List Varbind → Type 0
  Encodes [] [] = Unit {0}
  Encodes (v ∷ vs) (x ∷ xs) =
      (x.oid ≡ v.name) × (x.type_name ≡ v.type_name) × Shows v.value x.value × Encodes vs xs
  Encodes _ _ = ⊥

module _ (env : Env) (utf8_text : List ℕ → Option String) (hex_text : List ℕ → String)
    (marshal : List Varbind → Result Error String) where
  -- The row of a packet, by what the protocol says of each field.
  pub record Recorded (p : Packet) (source : String) (w v : World) : Type 0 where
    pub row : TrapRow
    pub rows : v.traps ≡ w.traps ++ row ∷ []
    pub numbered : row.id ≡ w.next_trap
    pub stamped : row.received_at ≡ env.now w.ticks
    pub from_source : row.source_ip ≡ source
    pub community : row.community ≡ some p.community
    pub agent : p.version ≡ version1 → row.agent_address ≡ some p.agent_address
    pub no_agent : p.version ≢ version1 → row.agent_address ≡ some ""
    pub generic :
        (n : ℕ)
        → p.version ≡ version1
        → p.generic_trap ≡ pos n
        → n ≤ 5
        → trap_name row.oid ≡ generic_name n
    pub specific :
        (n : ℕ)
        → p.version ≡ version1
        → p.generic_trap ≡ pos 6
        → p.specific_trap ≡ pos n
        → row.oid ≡ enterprise_oid p n
    pub variable : p.version ≢ version1 → TrapOid p.variables row.oid
    pub shown : List Varbind
    pub encodes : Encodes utf8_text hex_text p.variables shown
    pub payload : marshal shown ≡ ok row.payload
