-- ===== src/Snmp/TrapNames.antt =====
-- internal/snmp/trapnames.go: the names of well-known traps.
use beacon_v.Prelude.{
  String, Option, none, some, List, [], ◌∷◌, ◌==◌, if◌then◌else◌, has_prefix, trim_dot, ◌<>◌, ◌≡◌,
  refl,
}

abbrev pub trap_names : List (String × String)
trap_names =
    (".1.3.6.1.6.3.1.1.5.1", "ColdStart")
    ∷ (".1.3.6.1.6.3.1.1.5.2", "WarmStart")
    ∷ (".1.3.6.1.6.3.1.1.5.3", "LinkDown")
    ∷ (".1.3.6.1.6.3.1.1.5.4", "LinkUp")
    ∷ (".1.3.6.1.6.3.1.1.5.5", "AuthenticationFailure")
    ∷ (".1.3.6.1.6.3.1.1.5.6", "EgpNeighborLoss")
    ∷ (".1.3.6.1.4.1.9.9.43.2.0.1", "ConfigManEvent")
    ∷ (".1.3.6.1.4.1.9.9.43.2.0.2", "ConfigChanged")
    ∷ (".1.3.6.1.4.1.9.9.43.2.0.3", "ConfigCTIDRolledOver")
    ∷ []

unfoldable pub lookup {ℓ} : {V : Type ℓ} → String → List (String × V) → Option V
lookup key [] = none
lookup key ((name, value) ∷ others) = if name == key then some value else lookup key others

abbrev pub or_else {ℓ} : {A : Type ℓ} → Option A → A → A
or_else none a = a
or_else (some b) a = b

unfoldable pub normalize : String → String
unfolding has_prefix trim_dot
normalize oid = trim_dot (if has_prefix "." oid then oid else "." <> oid)

unfoldable pub trap_name : String → String
unfolding lookup normalize
trap_name oid = or_else (lookup (normalize oid) trap_names) oid

link_down : trap_name "1.3.6.1.6.3.1.1.5.3." ≡ "LinkDown"
unfolding trap_name
link_down = refl
