-- ===== src/ConfigApi/Server/Documented.antt =====
-- config-api/main.go: which handler answers a request, resource by resource.
use beacon_v.Prelude.{
  and-false, String, Bool, ◌||◌, Option, List, [], ◌∷◌, ◌==◌, if◌then◌else◌, ◌≡◌, refl, Bool-cases,
  inl, inr, arith, eq_iff,
}
use beacon_v.World.{World, Env}
use beacon_v.Http.{Request, Reply, route, with_cors}
use beacon_v.ConfigApi.Devices
use beacon_v.ConfigApi.Devices.{DeviceHandler}
use beacon_v.ConfigApi.Settings
use beacon_v.ConfigApi.Traps
use beacon_v.ConfigApi.Traps.{TrapsHandler, TrapVarbind}
use beacon_v.ConfigApi.Server.{
  Decoders, Content, empty, text_reply, reply_of, routes, call_endpoint, call_route, mux, serve,
}

abbrev Answer : Type 0
Answer = World → Reply Content × World

abbrev not_found : Answer
not_found w = (text_reply 404 "404 page not found\n", w)

abbrev not_allowed : Answer
not_allowed w = (text_reply 405 "Method Not Allowed\n", w)

abbrev is_read : String → Bool
is_read method = ("GET" == method) || (method == "HEAD")

module _ (env : Env) (h : DeviceHandler) (th : TrapsHandler)
    (decode_payload : String → Option (List TrapVarbind)) (decode : Decoders) (r : Request) where
  abbrev at_healthz : String → Answer
  at_healthz method w = if is_read method then (text_reply 200 "ok", w) else not_allowed w

  abbrev at_devices : String → Answer
  at_devices method w =
      if is_read method
      then reply_of (Devices.list env h w)
      else if "POST" == method
      then reply_of (Devices.create env h (decode.device_request r.body) w)
      else not_allowed w

  abbrev at_device : String → String → Answer
  at_device id method w =
      if is_read method
      then reply_of (Devices.get env h id w)
      else if "PATCH" == method
      then reply_of (Devices.update env h id (decode.updates r.body) w)
      else if "DELETE" == method
      then reply_of (Devices.delete env h id w)
      else not_allowed w

  abbrev at_interval : String → Answer
  at_interval method w =
      if is_read method
      then reply_of (Settings.get_polling_interval env w)
      else if "POST" == method
      then reply_of (Settings.set_polling_interval env (decode.interval r.body) w)
      else not_allowed w

  abbrev at_duplication : String → Answer
  at_duplication method w =
      if is_read method
      then reply_of (Settings.get_credential_duplication env w)
      else if "POST" == method
      then reply_of (Settings.set_credential_duplication env (decode.duplication r.body) w)
      else not_allowed w

  abbrev at_traps : String → Answer
  at_traps method w =
      if is_read method then reply_of (Traps.list env th (r.query "limit") w) else not_allowed w

  abbrev at_readable : String → Answer
  at_readable method w =
      if is_read method
      then reply_of (Traps.list_readable env th decode_payload (r.query "limit") w)
      else not_allowed w

  abbrev at_one : String → String → Answer
  at_one a method w =
      if "healthz" == a
      then at_healthz method w
      else if "devices" == a
      then at_devices method w
      else if "traps" == a
      then at_traps method w
      else not_found w

  abbrev at_two : String → String → String → Answer
  at_two a b method w =
      if "devices" == a
      then (if b == "" then not_found w else at_device b method w)
      else if "settings" == a
      then (if "polling-interval" == b
          then at_interval method w
          else if "credential-duplication" == b
          then at_duplication method w
          else not_found w)
      else if "traps" == a
      then (if "readable" == b then at_readable method w else not_found w)
      else not_found w

  abbrev pub documented : List String → String → Answer
  documented (a ∷ []) = at_one a
  documented (a ∷ b ∷ []) = at_two a b
  documented _ = λ method. not_found

  abbrev Serves : List String → String → Answer → Type 0
  Serves path method answer =
      (w : World)
      → call_route env h th decode_payload decode (route method path routes) r w ≡ answer w

  healthz-Serves : (method : String) → Serves ("healthz" ∷ []) method (at_healthz method)
  unfolding route call_endpoint
  healthz-Serves method w = ground arith

  devices-Serves : (method : String) → Serves ("devices" ∷ []) method (at_devices method)
  unfolding route call_endpoint
  devices-Serves method w = ground arith

  traps-Serves : (method : String) → Serves ("traps" ∷ []) method (at_traps method)
  unfolding route call_endpoint
  traps-Serves method w = ground arith

  no_id-Serves : (method : String) → Serves ("devices" ∷ "" ∷ []) method not_found
  unfolding route call_endpoint
  no_id-Serves method w = ground arith

  device-Serves :
      (id method : String) → Serves ("devices" ∷ id ∷ []) method (at_two "devices" id method)
  unfolding route call_endpoint
  device-Serves id method w = elim (Bool-cases (id == "")) [
    | inl none_given ↦ rw ((eq_iff id "").0 none_given) (no_id-Serves method w)
    | inr given ↦ rw given (ground arith)
  ]

  interval-Serves :
      (method : String) → Serves ("settings" ∷ "polling-interval" ∷ []) method (at_interval method)
  unfolding route call_endpoint
  interval-Serves method w = ground arith

  duplication-Serves :
      (method : String)
      → Serves ("settings" ∷ "credential-duplication" ∷ []) method (at_duplication method)
  unfolding route call_endpoint
  duplication-Serves method w = ground arith

  readable-Serves :
      (method : String) → Serves ("traps" ∷ "readable" ∷ []) method (at_readable method)
  unfolding route call_endpoint
  readable-Serves method w = ground arith

  one-Serves : (a method : String) → Serves (a ∷ []) method (at_one a method)
  unfolding route call_endpoint
  one-Serves a method w = elim (Bool-cases ("healthz" == a)) [
    | inl e ↦ rw (← (eq_iff "healthz" a).0 e) (healthz-Serves method w)
    | inr ne1 ↦ elim (Bool-cases ("devices" == a)) [
      | inl e ↦ rw (← (eq_iff "devices" a).0 e) (devices-Serves method w)
      | inr ne2 ↦ elim (Bool-cases ("traps" == a)) [
        | inl e ↦ rw (← (eq_iff "traps" a).0 e) (traps-Serves method w)
        | inr ne3 ↦ rw (ne1, ne2, ne3) (ground arith)
      ]
    ]
  ]

  settings-Serves :
      (b method : String) → Serves ("settings" ∷ b ∷ []) method (at_two "settings" b method)
  unfolding route call_endpoint
  settings-Serves b method w = elim (Bool-cases ("polling-interval" == b)) [
    | inl e ↦ rw (← (eq_iff "polling-interval" b).0 e) (interval-Serves method w)
    | inr ne1 ↦ elim (Bool-cases ("credential-duplication" == b)) [
      | inl e ↦ rw (← (eq_iff "credential-duplication" b).0 e) (duplication-Serves method w)
      | inr ne2 ↦ rw (ne1, ne2) (ground arith)
    ]
  ]

  under_traps-Serves :
      (b method : String) → Serves ("traps" ∷ b ∷ []) method (at_two "traps" b method)
  unfolding route call_endpoint
  under_traps-Serves b method w = elim (Bool-cases ("readable" == b)) [
    | inl e ↦ rw (← (eq_iff "readable" b).0 e) (readable-Serves method w)
    | inr ne1 ↦ rw ne1 (ground arith)
  ]

  two-Serves : (a b method : String) → Serves (a ∷ b ∷ []) method (at_two a b method)
  unfolding route call_endpoint
  two-Serves a b method w = elim (Bool-cases ("devices" == a)) [
    | inl e ↦ rw (← (eq_iff "devices" a).0 e) (device-Serves b method w)
    | inr ne1 ↦ elim (Bool-cases ("settings" == a)) [
      | inl e ↦ rw (← (eq_iff "settings" a).0 e) (settings-Serves b method w)
      | inr ne2 ↦ elim (Bool-cases ("traps" == a)) [
        | inl e ↦ rw (← (eq_iff "traps" a).0 e) (under_traps-Serves b method w)
        | inr ne3 ↦ rw (ne1, ne2, ne3) (ground arith)
      ]
    ]
  ]

  path-Serves : (path : List String) (method : String) → Serves path method (documented path method)
  unfolding route call_endpoint
  path-Serves [] method w = ground arith
  path-Serves (a ∷ []) method w = one-Serves a method w
  path-Serves (a ∷ b ∷ []) method w = two-Serves a b method w
  path-Serves (a ∷ b ∷ c ∷ path) method w = simp (and-false)

-- The CORS headers, in front of a reply's own.
abbrev pub shared : Reply Content × World → Reply Content × World
shared x = (
  record (x.0) {
    headers =
        ("Access-Control-Allow-Origin", "*")
        ∷ ("Access-Control-Allow-Methods", "GET, POST, PATCH, DELETE, OPTIONS")
        ∷ ("Access-Control-Allow-Headers", "Content-Type")
        ∷ x.0.headers;
  },
  x.1,
)

-- What config-api answers, resource by resource: OPTIONS is answered with status 204 and the CORS
-- headers, and leaves the tables; any other request has them added to the answer of its resource.
-- /healthz, /devices, /devices/{id}, /settings/polling-interval, /settings/credential-duplication,
-- /traps and /traps/readable are read by GET and HEAD; POST creates a device and sets a setting; PATCH
-- updates and DELETE deletes the device of the path; another method of a resource is answered 405, any
-- other path and an empty id 404, and these leave the tables.
pub serve-documented :
    (env : Env) (h : DeviceHandler) (th : TrapsHandler)
    (decode_payload : String → Option (List TrapVarbind)) (decode : Decoders) (r : Request)
    (w : World)
    → serve env h th decode_payload decode r w ≡ (
        if r.method == "OPTIONS"
        then shared (record { headers = []; status = 204; body = empty }, w)
        else shared (documented env h th decode_payload decode r r.path r.method w))
unfolding serve mux with_cors
serve-documented env h th decode_payload decode r w =
    rw (path-Serves env h th decode_payload decode r r.path r.method w) refl
