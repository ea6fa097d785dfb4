-- ===== src/ConfigApi/Interfaces.antt =====
-- The interface that extractInterface of config-api/handlers/traps.go shows of a trap.
use beacon_v.Prelude.{
  String, Option, none, some, List, [], ◌∷◌, if◌then◌else◌, has_prefix, ◌≡◌, refl, Bool-cases, inl,
  inr,
}
use beacon_v.ConfigApi.Traps.{
  TrapVarbind, if_descr_prefix, if_index_prefix, nonempty_text, return_or, sprint, index_name,
  interface_from, extract_interface,
}

abbrev pub first_some : Option String → Option String → Option String
first_some none rest = rest
first_some (some s) rest = some s

-- The first ifDescr that is a text which is not empty.
unfoldable pub description : List TrapVarbind → Option String
description [] = none
description (v ∷ vs) =
    let rest = description vs in
    if has_prefix if_descr_prefix v.oid then first_some (nonempty_text v.value) rest else rest

-- The value of the last ifIndex.
unfoldable pub last_index : String → List TrapVarbind → String
last_index index [] = index
last_index index (v ∷ vs) =
    let same = last_index index vs in
    let next = last_index (sprint v.value) vs in
    if has_prefix if_descr_prefix v.oid
    then same
    else if has_prefix if_index_prefix v.oid
    then next
    else same

return_or-first_some :
    (o p : Option String) (s : String) → return_or o (return_or p s) ≡ return_or (first_some o p) s
return_or-first_some none p s = refl
return_or-first_some (some t) p s = refl

interface_from-parts :
    (index : String) (vs : List TrapVarbind)
    → interface_from index vs ≡ return_or (description vs) (index_name (last_index index vs))
unfolding interface_from description last_index
interface_from-parts index [] = refl
interface_from-parts index (v ∷ vs) = elim (Bool-cases (has_prefix if_descr_prefix v.oid)) [
  | inl descr ↦
      rw (descr, interface_from-parts index vs)
        (return_or-first_some (nonempty_text v.value) (description vs)
          (index_name (last_index index vs)))
  | inr other ↦ elim (Bool-cases (has_prefix if_index_prefix v.oid)) [
    | inl indexed ↦ rw (other, indexed) (interface_from-parts (sprint v.value) vs)
    | inr neither ↦ rw (other, neither) (interface_from-parts index vs)
  ]
]

-- The interface of a payload that decodes is its first ifDescr that is a text which is not empty, and
-- without one "ifIndex" with the last ifIndex, or nothing if there is none either.
pub extract_interface-parts :
    (decode_payload : String → Option (List TrapVarbind)) (payload : String) (vs : List TrapVarbind)
    → decode_payload payload ≡ some vs
    → extract_interface decode_payload payload
      ≡ return_or (description vs) (index_name (last_index "" vs))
unfolding extract_interface
extract_interface-parts decode_payload payload vs e = rw e (interface_from-parts "" vs)
