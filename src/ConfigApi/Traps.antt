-- ===== src/ConfigApi/Traps.antt =====
-- config-api/handlers/traps.go: the handlers of /traps, and which device sent a trap.
-- Decoding a payload's JSON is the Go library's: `decode_payload` is its outcome.
use beacon_v.Prelude.{
  suc, String, Bool, false, Option, none, some, List, [], ◌∷◌, ◌==◌, if◌then◌else◌, ℤ, pos,
  parse_int, has_prefix, ◌<>◌,
}
use beacon_v.Exec.{Result, ok, err, Exec, pure, ◌>>=◌, attempt, or_fail}
use beacon_v.World.{Error, World, Env}
use beacon_v.Crypto.{Key, decrypt}
use beacon_v.Snmp.TrapNames.{trap_name}
use beacon_v.Store.{Device}
use beacon_v.Store.Devices
use beacon_v.Store.Traps
use beacon_v.Store.Traps.{Trap}
use beacon_v.ConfigApi.{
  Handler, Response, ReadableTrap, write_json, write_error, answer, traps, readable_traps,
}

-- A decoded value: a string, or another value with the text that `fmt.Sprint` prints.
pub data VarValue : Type 0 where
  text : String → VarValue
  other : String → VarValue

pub record TrapVarbind : Type 0 where
  pub oid : String
  pub value : VarValue

abbrev pub if_descr_prefix : String
if_descr_prefix = ".1.3.6.1.2.1.2.2.1.2."

abbrev pub if_index_prefix : String
if_index_prefix = ".1.3.6.1.2.1.2.2.1.1."

abbrev pub sprint : VarValue → String
sprint (text s) = s
sprint (other s) = s

abbrev pub nonempty_text : VarValue → Option String
nonempty_text (text s) = if s == "" then none else some s
nonempty_text (other s) = none

abbrev pub index_name : String → String
index_name index = if index == "" then "" else "ifIndex " <> index

abbrev pub return_or : Option String → String → String
return_or (some s) rest = s
return_or none rest = rest

-- The loop of `extractInterface`, from the last `ifIndex` seen.
unfoldable pub interface_from : String → List TrapVarbind → String
unfolding has_prefix
interface_from index [] = index_name index
interface_from index (v ∷ vs) =
    let same = interface_from index vs in
    let indexed = interface_from (sprint v.value) vs in
    if has_prefix if_descr_prefix v.oid
    then return_or (nonempty_text v.value) same
    else if has_prefix if_index_prefix v.oid
    then indexed
    else same

abbrev interface_of : Option (List TrapVarbind) → String
interface_of none = ""
interface_of (some vs) = interface_from "" vs

unfoldable pub extract_interface : (String → Option (List TrapVarbind)) → String → String
unfolding interface_from
extract_interface decode_payload payload = interface_of (decode_payload payload)

-- The value of `?limit=`, "" where there is none.
abbrev positive_or : ℤ → Option ℤ → ℤ
positive_or limit (some (pos (suc n))) = pos (suc n)
positive_or limit _ = limit

unfoldable pub limit_from_query : String → ℤ
limit_from_query v = if v == "" then pos 100 else positive_or (pos 100) (parse_int v)

-- `TrapsHandler`; `devices` says whether the field `Devices` is set.
pub record TrapsHandler : Type 0 where
  pub devices : Bool
  pub key : Option Key

-- The first device whose own community decrypts to this one.
abbrev plain_is : String → Result Error String → Bool
plain_is community (err _) = false
plain_is community (ok plain) = if plain == "" then false else plain == community

unfoldable pub by_community : Key → String → List Device → String
unfolding decrypt
by_community key community [] = ""
by_community key community (d ∷ ds) =
    let rest = by_community key community ds in
    if d.community == ""
    then rest
    else if plain_is community (decrypt key d.community)
    then d.hostname
    else rest

module _ (env : Env) (h : TrapsHandler) where
  -- Errors of the store are dropped: the device is then unknown.
  abbrev pub Lookup : Type 0
  Lookup = Exec World Response String

  abbrev pub listed : Key → String → Result Error (List Device) → String
  listed key community (ok ds) = by_community key community ds
  listed key community (err _) = ""

  unfoldable pub search_community : String → Option Key → Lookup
  search_community community none = pure ""
  search_community community (some key) =
      if community == ""
      then pure ""
      else do r ← attempt (Devices.list env); pure (listed key community r)

  abbrev pub found_or : Result Error Device → Lookup → Lookup
  found_or (ok d) next = pure d.hostname
  found_or (err _) next = next

  unfoldable pub resolve_device : String → String → Lookup
  unfolding search_community by_community
  resolve_device agent_address community =
      let fallback = search_community community h.key in
      if h.devices
      then (if agent_address == ""
          then fallback
          else do r ← attempt (Devices.get_by_ip env agent_address); found_or r fallback)
      else pure ""

  unfoldable pub readable :
      (String → Option (List TrapVarbind)) → List Trap → Exec World Response (List ReadableTrap)
  unfolding resolve_device extract_interface
  readable decode_payload [] = pure []
  readable decode_payload (t ∷ ts) = do
    device ← resolve_device t.agent_address t.community
    rest ← readable decode_payload ts
    pure (
        record {
          id = t.id;
          source_ip = t.source_ip;
          oid = t.oid;
          name = trap_name t.oid;
          device = device;
          interface = extract_interface decode_payload t.payload;
          payload = t.payload;
          received_at = t.received_at;
        }
        ∷ rest)

  unfoldable pub list : String → Handler
  unfolding limit_from_query
  list query = answer do
    ts ← or_fail (write_error 500) (Traps.list env (limit_from_query query))
    pure (write_json 200 (traps ts))

  unfoldable pub list_readable : (String → Option (List TrapVarbind)) → String → Handler
  unfolding limit_from_query readable
  list_readable decode_payload query = answer do
    ts ← or_fail (write_error 500) (Traps.list env (limit_from_query query))
    rs ← readable decode_payload ts
    pure (write_json 200 (readable_traps rs))
