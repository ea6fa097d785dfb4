-- ===== src/Snmp/Hops.antt =====
-- WalkRouteNextHops of internal/snmp/routes.go: which next hops the walk's callback keeps.
use beacon_v.Prelude.{
  String, Bool, true, false, ◌&&◌, ◌||◌, List, [], ◌∷◌, ◌++◌, ◌==◌, if◌then◌else◌, eq_iff, ◌≡◌,
  refl, arith, Bool-cases, inl, inr,
}
use mathlib.Core.Path.{subst}
use beacon_v.World.{Pdu, PduValue, text}
use beacon_v.Snmp.{contains_hop, collect_text, collect, next_hops}

abbrev pub is_usable : String → Bool
is_usable hop = if hop == "" || hop == "0.0.0.0" then false else true

abbrev pub is_text : PduValue → String → Bool
is_text (text t) hop = t == hop
is_text _ hop = false

-- Some variable of the walk has this text as its value.
unfoldable pub reported : List Pdu → String → Bool
reported [] hop = false
reported (pdu ∷ pdus) hop = is_text pdu.value hop || reported pdus hop

unfoldable pub distinct : List String → Bool
unfolding contains_hop
distinct [] = true
distinct (h ∷ hs) = (if contains_hop hs h then false else true) && distinct hs

same-text : (s t : String) → (s == t) ≡ true → s ≡ t
same-text s t h = (eq_iff s t).0 h

text-same : (s : String) → (s == s) ≡ true
text-same s = (eq_iff s s).1 refl

contains_hop-snoc :
    (hs : List String) (x hop : String)
    → contains_hop (hs ++ x ∷ []) hop ≡ (contains_hop hs hop || x == hop)
unfolding contains_hop
contains_hop-snoc [] x hop = ground arith
contains_hop-snoc (h ∷ hs) x hop = elim (Bool-cases (h == hop)) [
  | inl same ↦ rw same refl
  | inr other ↦ rw other (contains_hop-snoc hs x hop)
]

collect_same :
    (hs : List String) (t : String)
    → contains_hop (collect_text hs t) t ≡ (contains_hop hs t || is_usable t)
collect_same hs t = let snoc = contains_hop-snoc hs t t in let same = text-same t in ground arith

collect_other :
    (hs : List String) (t hop : String)
    → (t == hop) ≡ false
    → contains_hop (collect_text hs t) hop ≡ contains_hop hs hop
collect_other hs t hop other = let snoc = contains_hop-snoc hs t hop in ground arith

collect-contains :
    (hs : List String) (v : PduValue) (hop : String)
    → contains_hop (collect hs v) hop ≡ (contains_hop hs hop || (is_usable hop && is_text v hop))
collect-contains hs (PduValue.bytes b) hop = ground arith
collect-contains hs (PduValue.other s) hop = ground arith
collect-contains hs (text t) hop = elim (Bool-cases (t == hop)) [
  | inl same ↦
      let it =
        subst (λ x. contains_hop (collect_text hs t) x ≡ (contains_hop hs x || is_usable x))
          (same-text t hop same) (collect_same hs t) in
      ground arith
  | inr different ↦ let it = collect_other hs t hop different in ground arith
]

distinct-snoc :
    (hs : List String) (x : String)
    → distinct hs ≡ true
    → contains_hop hs x ≡ false
    → distinct (hs ++ x ∷ []) ≡ true
unfolding distinct contains_hop
distinct-snoc [] x hd hx = refl
distinct-snoc (h ∷ hs) x hd hx = elim (Bool-cases (x == h)) [
  | inl same ↦
      let back = subst (λ y. (y == x) ≡ true) (same-text x h same) (text-same x) in
      absurd (ground arith)
  | inr different ↦
      let snoc = contains_hop-snoc hs x h in
      let rest = distinct-snoc hs x (ground arith) (ground arith) in ground arith
]

collect-distinct :
    (hs : List String) (v : PduValue) → distinct hs ≡ true → distinct (collect hs v) ≡ true
collect-distinct hs (PduValue.bytes b) hd = hd
collect-distinct hs (PduValue.other s) hd = hd
collect-distinct hs (text t) hd = elim (Bool-cases (contains_hop hs t)) [
  | inl seen ↦ ground arith
  | inr fresh ↦ let snoc = distinct-snoc hs t hd fresh in ground arith
]

hops-contains :
    (hs : List String) (pdus : List Pdu) (hop : String)
    → contains_hop (next_hops hs pdus) hop
      ≡ (contains_hop hs hop || (is_usable hop && reported pdus hop))
unfolding next_hops reported
hops-contains hs [] hop = ground arith
hops-contains hs (pdu ∷ pdus) hop =
    let here = collect-contains hs pdu.value hop in
    let rest = hops-contains (collect hs pdu.value) pdus hop in ground arith

hops-distinct :
    (hs : List String) (pdus : List Pdu) → distinct hs ≡ true → distinct (next_hops hs pdus) ≡ true
unfolding next_hops
hops-distinct hs [] hd = hd
hops-distinct hs (pdu ∷ pdus) hd =
    hops-distinct (collect hs pdu.value) pdus (collect-distinct hs pdu.value hd)

-- What a walk collects holds each next hop once, and a text is one of them exactly if some variable
-- of the walk has it as its value and it is neither empty nor 0.0.0.0.
pub next_hops-reported :
    (pdus : List Pdu)
    → (distinct (next_hops [] pdus) ≡ true)
      × ((hop : String)
          → contains_hop (next_hops [] pdus) hop ≡ (is_usable hop && reported pdus hop))
unfolding distinct contains_hop
next_hops-reported pdus = (hops-distinct [] pdus refl, hops-contains [] pdus)
