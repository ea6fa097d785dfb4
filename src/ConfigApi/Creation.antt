-- ===== src/ConfigApi/Creation.antt =====
-- What POST /devices of config-api/handlers/devices.go stores and answers.
use beacon_v.Prelude.{
  ℕ, String, false, none, some, List, [], ◌∷◌, ◌++◌, ◌==◌, pos, ◌≡◌, refl, ap, sym, ◌∙◌, arith,
  Bool-cases, Option-cases, ◌⊎◌, inl, inr,
}
use beacon_v.Exec.{Result-cases, pure, ok, err, ◌>>=◌, or_fail}
use beacon_v.Exec.Ensures.{
  Post, Ensures, Ensures-bind, Ensures-or_fail, Ensures-keeps, Ensures-pure, Ensures-given,
  Ensures-of, Ensures-fails,
}
use beacon_v.Exec.Keeps.{keeps_rules}
use beacon_v.Netutil.{is_public}
use beacon_v.World.{Row, World, Env}
use beacon_v.World.Ticks.{IgnoresTicks}
use beacon_v.Crypto.{decrypt}
use beacon_v.Crypto.RoundTrip.{Lawful, decrypt-encrypt, encrypt-keeps}
use beacon_v.Snmp.Probing.{verify-keeps}
use beacon_v.Store.{Device, device_of, has_null, scan_device, find_id, statement}
use beacon_v.Store.Devices
use beacon_v.Store.Devices.{inserted, with_status}
use beacon_v.Store.Success.{create-ok, create-err}
use beacon_v.Store.MapView.{find_id-fresh, find_id-append}
use beacon_v.Store.Preservation.{get-keeps}
use beacon_v.Store.Validity.{IsValid}
use beacon_v.ConfigApi.{Response, write_json, write_error, device, to_device_response}
use beacon_v.ConfigApi.Devices.{
  DeviceHandler, DeviceRequest, requested, request_credentials, probe_status, encrypt_field,
  create_valid,
}

-- The row that is stored for a request, and the response that shows it.
pub record Created (env : Env) (h : DeviceHandler) (req : DeviceRequest) (start : World)
    (r : Response) (w : World) : Type 0 where
  pub row : Row
  pub rows : w.devices ≡ start.devices ++ row ∷ []
  pub id : row.id ≡ start.next_id
  pub address : row.ip_address ≡ req.ip_address
  pub hostname : row.hostname ≡ some req.hostname
  pub version : row.snmp_version ≡ some req.snmp_version
  pub via : row.discovered_via ≡ some "manual"
  pub public : row.is_public_ip ≡ some (is_public env.v6_text req.ip_address)
  pub community : (c : String) × (row.community ≡ some c) × (decrypt h.key c ≡ ok req.community)
  pub auth_key : (c : String) × (row.v3_auth_key ≡ some c) × (decrypt h.key c ≡ ok req.v3_auth_key)
  pub priv_key : (c : String) × (row.v3_priv_key ≡ some c) × (decrypt h.key c ≡ ok req.v3_priv_key)
  pub answered : r ≡ write_json 201 (device (to_device_response (device_of row)))

with_status-eq : (d : Device) → (s : String) × (with_status d ≡ record d { status = s })
with_status-eq d = elim (Bool-cases (d.status == "")) [
  | inl empty ↦ ("pending", rw empty refl)
  | inr given ↦ (d.status, rw given refl)
]

full : (d : Device) (id : ℕ) (now : String) → has_null (inserted d id now) ≡ false
unfolding has_null
full d id now = refl

-- The devices of `start`, possibly with one more.
abbrev pub AtMostOne : World → World → Type 0
AtMostOne start w =
    (w.devices ≡ start.devices) ⊎ ((r : Row) × (w.devices ≡ start.devices ++ r ∷ []))

module _ (env : Env) (h : DeviceHandler) (laws : Lawful env h.key) (start : World)
    (valid : IsValid start) where
  abbrev Start : World → Type 0
  Start w = (w.devices ≡ start.devices) × (w.next_id ≡ start.next_id)

  Start-ignores : IgnoresTicks Start
  Start-ignores w s = s

  encrypts :
      (p : String)
      → Ensures Start
          (encrypt_field env h p)
          (λ c w. Start w × (decrypt h.key c ≡ ok p))
          (AtMostOne start)
  unfolding encrypt_field
  encrypts p = Ensures-or_fail _ _ (
      Ensures-of _
        (λ w s c e. (
          (encrypt-keeps Start-ignores env h.key p).after w s,
          (decrypt-encrypt env h.key laws p c w e).0,
        ))
        (λ w s. inl ((encrypt-keeps Start-ignores env h.key p).after w s).0))

  -- The table with one more row, which got some status.
  abbrev Added : Device → ℕ → World → Type 0
  Added d id w =
      (status now : String) × (id ≡ start.next_id)
      × (w.devices
          ≡ start.devices ++ inserted (record d { status = status }) start.next_id now ∷ [])

  creates : (d : Device) → Ensures Start (Devices.create env d) (Added d) (AtMostOne start)
  creates d =
      Ensures-of _
        (λ w s id e.
          let (ins, state) = create-ok env w d id e in
          let (status, same) = with_status-eq d in
          let now = env.now w.ticks in
          let end : List Row → List Row = λ rs. rs ++ inserted (with_status d) w.next_id now ∷ [] in
          (
            status,
            now,
            sym ins.next ∙ s.1,
            ap (λ x. x.devices) state
                ∙ ins.rows
                ∙ ap end s.0
                ∙ ap (λ n. start.devices ++ inserted (with_status d) n now ∷ []) s.1
                ∙ ap (λ x. start.devices ++ inserted x start.next_id now ∷ []) same,
          ))
        (λ w s. elim (Result-cases (Devices.create env d w).0) [
          | inl (id, done) ↦
              let (ins, state) = create-ok env w d id done in
              let row = inserted (with_status d) w.next_id (env.now w.ticks) in
              inr (row, ap (λ x. x.devices) state ∙ ins.rows ∙ ap (λ rs. rs ++ row ∷ []) s.0)
          | inr (e, failed) ↦ inl (create-err env w d e failed ∙ s.0)
        ])

  -- A read that succeeds, of a row without NULLs.
  read_back :
      (id : ℕ) (row : Row) (d : Device) (w : World)
      → find_id (pos id) w.devices ≡ some row
      → has_null row ≡ false
      → (Devices.get env (pos id) w).0 ≡ ok d
      → d ≡ device_of row
  unfolding Devices.get ◌>>=◌ or_fail scan_device
  read_back id row d w found scans e = elim (Option-cases (env.fault w.ticks)) [
    | inl works ↦
        let done : ok (device_of row) ≡ ok d = rw (works, found, scans, statement) at e in cc
    | inr (failure, fails) ↦ absurd (let bad : err _ ≡ ok d = rw (fails, statement) at e in cc)
  ]

  reads :
      (id : ℕ) (row : Row)
      → find_id (pos id) (start.devices ++ row ∷ []) ≡ some row
      → has_null row ≡ false
      → Ensures
          (λ w. w.devices ≡ start.devices ++ row ∷ [])
          (Devices.get env (pos id))
          (λ d w. (w.devices ≡ start.devices ++ row ∷ []) × (d ≡ device_of row))
          (AtMostOne start)
  reads id row found scans =
      Ensures-of _
        (λ w rows d e. (
          (get-keeps {P = λ v. v.devices ≡ start.devices ++ row ∷ []} (λ _ x. x) env (pos id)).after
              w rows,
          read_back id row d w (rw rows found) scans e,
        ))
        (λ w rows. inr (
          row,
          (get-keeps {P = λ v. v.devices ≡ start.devices ++ row ∷ []} (λ _ x. x) env (pos id)).after
              w rows,
        ))

  found_last :
      (row : Row)
      → row.id ≡ start.next_id
      → find_id (pos row.id) (start.devices ++ row ∷ []) ≡ some row
  found_last row e =
      let fresh : find_id (pos row.id) start.devices ≡ none =
        rw e (find_id-fresh 1 start.devices start.next_id valid.ordered) in
      rw (find_id-append (pos row.id) start.devices row fresh) (ground arith)

  module _ (req : DeviceRequest) where
    abbrev Sealed : String → String → Type 0
    Sealed p c = decrypt h.key c ≡ ok p

    abbrev new_row : (community auth_key priv_key status now : String) → Row
    new_row community auth_key priv_key status now =
        inserted
          (requested req community auth_key priv_key status (is_public env.v6_text req.ip_address))
          start.next_id now

    probes :
        Ensures Start
          (probe_status env h req.ip_address (request_credentials req))
          (λ _. Start)
          (AtMostOne start)
    unfolding probe_status
    probes =
        Ensures-fails (λ w s. inl s.0)
          (Ensures-keeps _ (search (keeps_rules, verify-keeps Start-ignores env)))

    answers :
        (community auth_key priv_key status now : String)
        → Sealed req.community community
        → Sealed req.v3_auth_key auth_key
        → Sealed req.v3_priv_key priv_key
        → Ensures
            (λ w. w.devices ≡ start.devices ++ new_row community auth_key priv_key status now ∷ [])
            (do
              created ← or_fail (write_error 500) (Devices.get env (pos start.next_id))
              pure (write_json 201 (device (to_device_response created))))
            (Created env h req start)
            (AtMostOne start)
    answers community auth_key priv_key status now hc ha hp =
        let row = new_row community auth_key priv_key status now in
        Ensures-bind _ _ _
          (Ensures-or_fail _ _ (
            reads start.next_id row (found_last row refl)
              (full (requested req community auth_key priv_key status _) start.next_id now)))
          λ d. Ensures-given _ λ same. Ensures-pure _ λ w rows. record {
            row = row;
            rows = rows;
            id = refl;
            address = refl;
            hostname = refl;
            version = refl;
            via = refl;
            public = refl;
            community = (community, refl, hc);
            auth_key = (auth_key, refl, ha);
            priv_key = (priv_key, refl, hp);
            answered = ap (λ x. write_json 201 (device (to_device_response x))) same;
          }

    create_valid-Ensures :
        Ensures Start (create_valid env h req) (Created env h req start) (AtMostOne start)
    unfolding create_valid
    create_valid-Ensures = Ensures-bind _ _ _ (encrypts req.community) λ community.
        Ensures-given _ λ hc. Ensures-bind _ _ _ (encrypts req.v3_auth_key) λ auth_key.
          Ensures-given _ λ ha. Ensures-bind _ _ _ (encrypts req.v3_priv_key) λ priv_key.
            Ensures-given _ λ hp.
              Ensures-bind (λ _. Start) _ _ probes
                λ status. Ensures-bind _ _ _ (Ensures-or_fail _ _ (creates _)) λ id. record {
                  after = λ w (stored, now, same, rows).
                      rw same
                        ((answers community auth_key priv_key stored now hc ha hp).after w rows);
                }

    -- If the cipher, base64 and the random source have their documented laws and the table is valid,
    -- then when POST /devices gets to its answer the table has one new row behind the others, with the
    -- next id, the request's address and fields, "manual" as its origin, the flag that
    -- netutil.IsPublic computes of the address, and ciphertexts that decrypt to the credentials of
    -- the request; the answer is 201 and shows that row. When it fails before, the devices are as they
    -- were or have one more.
    pub create_valid-Post :
        Post
          (Created env h req start)
          (AtMostOne start)
          (create_valid env h req start).0
          (create_valid env h req start).1
    create_valid-Post = create_valid-Ensures.after start (refl, refl)
