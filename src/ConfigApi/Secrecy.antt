-- ===== src/ConfigApi/Secrecy.antt =====
-- The responses of config-api/handlers/devices.go show of a credential only whether it is set.
use mathlib.Core.Option as Option
use beacon_v.Prelude.{
  String, Option, none, some, List, [], ◌∷◌, map, ◌==◌, if◌then◌else◌, ℤ, pos, negsuc, eqb, ◌<>◌,
  parse_int, ◌≡◌, refl, ap, sym, ◌∙◌, Bool-cases, Option-cases, inl, inr,
}
use beacon_v.Exec.{Result, Result-cases, ok, err, ◌>>=◌, or_fail, map_err}
use beacon_v.World.{Error, message, wrap, Row, World, Env}
use beacon_v.Store.{
  Device, find_id, scan_found, device_of, has_null, is_null, value, scan_device, scan_all,
  scan_next, statement,
}
use beacon_v.Store.Devices
use beacon_v.Store.Devices.{id_text}
use beacon_v.ConfigApi.{
  DeviceResponse, Response, write_json, write_error, answer, device, devices, to_device_response,
}
use beacon_v.ConfigApi.Devices as handlers
use beacon_v.ConfigApi.Devices.{DeviceHandler, not_found_or}

-- A mark in place of a credential that is set.
abbrev pub mark : String → String
mark s = if s == "" then "" else "*"

abbrev pub marked : Option String → Option String
marked none = none
marked (some s) = some (mark s)

unfoldable pub redacted : Row → Row
redacted r = record r {
  community = marked r.community;
  v3_auth_key = marked r.v3_auth_key;
  v3_priv_key = marked r.v3_priv_key;
}

is_null-marked : (o : Option String) → is_null (marked o) ≡ is_null o
is_null-marked none = refl
is_null-marked (some s) = refl

mark-empty : (s : String) → (mark s == "") ≡ (s == "")
mark-empty s = elim (Bool-cases (s == "")) [ inl e ↦ rw e refl | inr f ↦ rw f refl ]

marked-empty : (o : Option String) → (value (marked o) == "") ≡ (value o == "")
marked-empty none = refl
marked-empty (some s) = mark-empty s

has_null-redacted : (r : Row) → has_null (redacted r) ≡ has_null r
unfolding has_null redacted
has_null-redacted r =
    rw (is_null-marked r.community, is_null-marked r.v3_auth_key, is_null-marked r.v3_priv_key) refl

response-redacted :
    (r : Row) → to_device_response (device_of (redacted r)) ≡ to_device_response (device_of r)
unfolding redacted to_device_response
response-redacted r =
    rw (marked-empty r.community, marked-empty r.v3_auth_key, marked-empty r.v3_priv_key) refl

abbrev view : Result Error Device → Result Error DeviceResponse
view (err e) = err e
view (ok d) = ok (to_device_response d)

abbrev views : Result Error (List Device) → Result Error (List DeviceResponse)
views (err e) = err e
views (ok ds) = ok (map to_device_response ds)

abbrev next_view :
    Result Error DeviceResponse
    → Result Error (List DeviceResponse)
    → Result Error (List DeviceResponse)
next_view (err e) _ = err (wrap "store: scanning device" e)
next_view (ok d) (err e) = err e
next_view (ok d) (ok ds) = ok (d ∷ ds)

views-scan_next :
    (a : Result Error Device) (b : Result Error (List Device))
    → views (scan_next a b) ≡ next_view (view a) (views b)
views-scan_next (err e) b = refl
views-scan_next (ok d) (err e) = refl
views-scan_next (ok d) (ok ds) = refl

view-redacted : (r : Row) → view (scan_device (redacted r)) ≡ view (scan_device r)
unfolding scan_device
view-redacted r = elim (Bool-cases (has_null r)) [
  | inl nulls ↦ rw (has_null-redacted r, nulls) refl
  | inr full ↦ rw (has_null-redacted r, full) (ap ok (response-redacted r))
]

views-redacted : (rs : List Row) → views (scan_all (map redacted rs)) ≡ views (scan_all rs)
unfolding scan_all
views-redacted [] = refl
views-redacted (r ∷ rs) =
    views-scan_next (scan_device (redacted r)) (scan_all (map redacted rs))
    ∙ ap (λ a. next_view a (views (scan_all (map redacted rs)))) (view-redacted r)
    ∙ ap (next_view (view (scan_device r))) (views-redacted rs)
    ∙ sym (views-scan_next (scan_device r) (scan_all rs))

find_id-redacted :
    (id : ℤ) (rs : List Row) → find_id id (map redacted rs) ≡ Option.map redacted (find_id id rs)
unfolding find_id redacted
find_id-redacted (negsuc n) [] = refl
find_id-redacted (negsuc n) (r ∷ rs) = find_id-redacted (negsuc n) rs
find_id-redacted (pos n) [] = refl
find_id-redacted (pos n) (r ∷ rs) = elim (Bool-cases (eqb n r.id)) [
  | inl here ↦ rw here refl
  | inr other ↦ rw other (find_id-redacted (pos n) rs)
]

abbrev in_error : (Error → Error) → Result Error DeviceResponse → Result Error DeviceResponse
in_error f (err e) = err (f e)
in_error f (ok r) = ok r

view-in_error :
    (f : Error → Error) (a : Result Error Device) → view (map_err f a) ≡ in_error f (view a)
view-in_error f (err e) = refl
view-in_error f (ok d) = refl

view-scan_found :
    (context : String) (o : Option Row)
    → view (scan_found context (Option.map redacted o)) ≡ view (scan_found context o)
view-scan_found context none = refl
view-scan_found context (some r) =
    view-in_error (wrap context) (scan_device (redacted r))
    ∙ ap (in_error (wrap context)) (view-redacted r)
    ∙ sym (view-in_error (wrap context) (scan_device r))

abbrev found : Result Error DeviceResponse → Response
found (err e) = not_found_or 500 e
found (ok r) = write_json 200 (device r)

abbrev listed : Result Error (List DeviceResponse) → Response
listed (err e) = write_error 500 e
listed (ok rs) = write_json 200 (devices rs)

abbrev pub redact : World → World
redact w = record w { devices = map redacted w.devices }

module _ (env : Env) (h : DeviceHandler) where
  list-runs :
      (w : World)
      → env.fault w.ticks ≡ none
      → (handlers.list env h w).0 ≡ listed (views (scan_all w.devices))
  unfolding handlers.list answer Devices.list ◌>>=◌ or_fail
  list-runs w works = elim (Result-cases (scan_all w.devices)) [
    | inl (ds, done) ↦ rw (works, done, statement) refl
    | inr (e, failed) ↦ rw (works, failed, statement) refl
  ]

  list-fails :
      (w : World) (e : Error)
      → env.fault w.ticks ≡ some e
      → (handlers.list env h w).0 ≡ write_error 500 (wrap "store: listing devices" e)
  unfolding handlers.list answer Devices.list ◌>>=◌ or_fail
  list-fails w e fails = rw (fails, statement) refl

  get-runs :
      (w : World) (path_id : String) (id : ℤ)
      → parse_int path_id ≡ some id
      → env.fault w.ticks ≡ none
      → (handlers.get env h path_id w).0
        ≡ found (view (scan_found ("store: getting device " <> id_text id) (find_id id w.devices)))
  unfolding handlers.get answer Devices.get ◌>>=◌ or_fail
  get-runs w path_id id parsed works =
      let row = scan_found ("store: getting device " <> id_text id) (find_id id w.devices) in
      elim (Result-cases row) [
        | inl (d, done) ↦ rw (parsed, works, done, statement) refl
        | inr (e, failed) ↦ rw (parsed, works, failed, statement) refl
      ]

  get-fails :
      (w : World) (path_id : String) (id : ℤ) (e : Error)
      → parse_int path_id ≡ some id
      → env.fault w.ticks ≡ some e
      → (handlers.get env h path_id w).0
        ≡ not_found_or 500 (wrap ("store: getting device " <> id_text id) e)
  unfolding handlers.get answer Devices.get ◌>>=◌ or_fail
  get-fails w path_id id e parsed fails = rw (parsed, fails, statement) refl

  get-refuses :
      (w : World) (path_id : String)
      → parse_int path_id ≡ none
      → (handlers.get env h path_id w).0 ≡ write_error 400 (message "invalid device id")
  unfolding handlers.get answer ◌>>=◌
  get-refuses w path_id refused = rw refused refl

  list-redact : (w : World) → (handlers.list env h (redact w)).0 ≡ (handlers.list env h w).0
  list-redact w = elim (Option-cases (env.fault w.ticks)) [
    | inl works ↦
        list-runs (redact w) works ∙ ap listed (views-redacted w.devices) ∙ sym (list-runs w works)
    | inr (e, fails) ↦ list-fails (redact w) e fails ∙ sym (list-fails w e fails)
  ]

  get-redact :
      (w : World) (path_id : String)
      → (handlers.get env h path_id (redact w)).0 ≡ (handlers.get env h path_id w).0
  get-redact w path_id = elim (Option-cases (parse_int path_id)) [
    | inl refused ↦ get-refuses (redact w) path_id refused ∙ sym (get-refuses w path_id refused)
    | inr (id, parsed) ↦
        let context = "store: getting device " <> id_text id in
        elim (Option-cases (env.fault w.ticks)) [
          | inl works ↦
              get-runs (redact w) path_id id parsed works
              ∙ ap (λ o. found (view (scan_found context o))) (find_id-redacted id w.devices)
              ∙ ap found (view-scan_found context (find_id id w.devices))
              ∙ sym (get-runs w path_id id parsed works)
          | inr (e, fails) ↦
              get-fails (redact w) path_id id e parsed fails
              ∙ sym (get-fails w path_id id e parsed fails)
        ]
  ]

  -- GET /devices and GET /devices/{id} answer as if every credential that is set had been replaced by
  -- one mark: of a credential, their responses depend on nothing but whether it is set.
  pub responses-redact :
      (w : World) (path_id : String)
      → ((handlers.list env h (redact w)).0 ≡ (handlers.list env h w).0)
        × ((handlers.get env h path_id (redact w)).0 ≡ (handlers.get env h path_id w).0)
  responses-redact w path_id = (list-redact w, get-redact w path_id)
